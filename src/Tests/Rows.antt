-- ===== src/Tests/Rows.antt =====
-- A connection to one table, `db.c`, that answers the statements of internal/backend/tidb/store.go.
use text.Mathlib.Text.{◌==◌}
use timongo.Prelude.{
  String, ℕ, zero, suc, ap, ◌∙◌, Bool-cases, List, [], ◌∷◌, Option, none, some, if◌then◌else◌, map,
  take, filter, ◌≡◌, refl, Result, ok, err, library_error, inl, inr,
}
use timongo.Prelude.Int.{ℤ, pos}
use timongo.Prelude.Text.{◌+++◌, print_ℤ}
use timongo.Prelude.Dict.{Dict, lookup, insert, remove, lookup-insert, lookup-remove}
use timongo.Value.{str, int32, int64, Doc}
use timongo.Bsonutil.ExtJson.{ExtJson}
use timongo.Tidb.Schema.{codes, same_codes, physical_table_name, document_table_ddl}
use timongo.Tidb.Connection.{Connection, Statement, Argument, value, Rows, last, row}
use timongo.Tidb.Write.{replace_row, delete_row}
use timongo.Tidb.Write.Tables.{Table, Puts, IsSql}
use timongo.Tidb.Read.Shown.{TableRows, shown, with_key, Selects}
use timongo.Tests.{whole, item}

-- The committed rows, and those that a transaction sees.
pub record Db : Type 0 where
  pub rows : Table
  pub pending : Table

abbrev pub items : List ℕ
items = codes "tm_doc_db_c"

abbrev print_item : Doc ℤ → Result String
print_item ((_, str s) ∷ (_, int32 n) ∷ []) = ok (s +++ ":" +++ print_ℤ n)
print_item [] = ok "{}"
print_item d = err (library_error "unknown document")

abbrev known : Dict (Doc ℤ)
known = ("a:3", item "a" 3) ∷ ("b:1", item "b" 1) ∷ ("c:2", item "c" 2) ∷ ("a:4", item "a" 4) ∷ []

abbrev or_invalid : Option (Doc ℤ) → Result (Doc ℤ)
or_invalid none = err (library_error "invalid JSON")
or_invalid (some d) = ok d

-- Documents `{"_id": s, "n": n}` as the text `s:n`.
abbrev pub texts : ExtJson ℤ
texts = record {
  marshal = print_item;
  unmarshal = λ raw. or_invalid (lookup raw known);
  utf8 = codes;
}

abbrev answer : Table → Rows String
answer [] = last (ok tt)
answer ((key, raw) ∷ table) = row (ok raw) (answer table)

abbrev put_row : List (Argument ℤ) → Table → Table
put_row (value (str key) ∷ _ ∷ _ ∷ value (str raw) ∷ []) table = insert key raw table
put_row _ table = table

abbrev drop_row : List (Argument ℤ) → Table → Table
drop_row (value (str key) ∷ []) table = remove key table
drop_row _ table = table

abbrev run : Statement ℤ → Db → Db × Result (Unit {0})
run (query, args) db =
    if same_codes query (replace_row items)
    then (record db { rows = put_row args db.rows }, ok tt)
    else if same_codes query (delete_row items)
    then (record db { rows = drop_row args db.rows }, ok tt)
    else (db, ok tt)

abbrev add_row : Option String → String → String → Db → Db × Result (Unit {0})
add_row none key raw db = (record db { pending = insert key raw db.pending }, ok tt)
add_row (some _) key raw db = (db, err (library_error "Duplicate entry"))

abbrev run_in_tx : Statement ℤ → Db → Db × Result (Unit {0})
run_in_tx (query, value (str key) ∷ _ ∷ _ ∷ value (str raw) ∷ []) db =
    add_row (lookup key db.pending) key raw db
run_in_tx statement db = (db, ok tt)

abbrev ask : Statement ℤ → Db → Result (Rows String)
ask (query, []) db = ok (answer db.rows)
ask (query, value (int64 (pos n)) ∷ []) db = ok (answer (take n db.rows))
ask (query, value (str key) ∷ []) db = ok (answer (filter (λ r. r.0 == key) db.rows))
ask (query, value (str key) ∷ value (int64 (pos n)) ∷ []) db =
    ok (answer (take n (filter (λ r. r.0 == key) db.rows)))
ask statement db = ok (answer [])

abbrev pub one_table : Connection ℤ Db
one_table = record {
  exec = run;
  query = ask;
  query_pairs = λ statement db. ok (last (ok tt));
  query_text = λ statement db. ok none;
  query_number = λ statement db. ok none;
  begin = λ db. (record db { pending = db.rows }, ok tt);
  tx_exec = run_in_tx;
  commit = λ db. (record db { rows = db.pending }, ok tt);
  rollback = λ db. db;
  ping = λ db. ok tt;
  close = λ db. (db, ok tt);
}

add_row_lem :
    (found : Option String) (key raw : String) (db : Db)
    → lookup key db.pending ≡ found
    → (((add_row found key raw db).0).rows ≡ db.rows)
      × ((add_row found key raw db).1 ≡ ok tt
          → (lookup key db.pending ≡ none)
            × Puts key raw db.pending ((add_row found key raw db).0).pending)
add_row_lem none key raw db e = (refl, λ _. (e, λ k. lookup-insert key k raw db.pending))
add_row_lem (some x) key raw db e = (refl, λ h. cc)

pub one_table-IsSql :
    IsSql one_table texts
      (physical_table_name "db" "c")
      (λ db. db.rows)
      (λ db. db.pending)
      (λ raw. raw)
unfolding physical_table_name document_table_ddl
one_table-IsSql = record {
  made = λ t db. refl;
  cataloged = λ args db. refl;
  begun = λ db. (refl, λ _. refl);
  inserted = λ key raw db. add_row_lem (lookup key db.pending) key raw db refl;
  committed = λ db. (inr refl, λ _. refl);
  rolled_back = λ db. refl;
  replaced = λ key raw db.
      (inr (λ k. lookup-insert key k raw db.rows), λ _ k. lookup-insert key k raw db.rows);
  deleted = λ key db. (inr (λ k. lookup-remove key k db.rows), λ _ k. lookup-remove key k db.rows);
}

abbrev pub stored : TableRows ℤ → Table
stored rows = map (λ r. (r.0, r.1.0)) rows

answer-stored : (rows : TableRows ℤ) → answer (stored rows) ≡ shown rows
answer-stored [] = refl
answer-stored ((key, (raw, d)) ∷ rows) = ap (row (ok raw)) (answer-stored rows)

take-stored : (n : ℕ) (rows : TableRows ℤ) → take n (stored rows) ≡ stored (take n rows)
take-stored zero rows = refl
take-stored (suc n) [] = refl
take-stored (suc n) ((key, (raw, d)) ∷ rows) = ap (◌∷◌ (key, raw)) (take-stored n rows)

filter-stored :
    (key : String) (rows : TableRows ℤ)
    → filter (λ r. r.0 == key) (stored rows) ≡ stored (with_key key rows)
filter-stored key [] = refl
filter-stored key ((k, (raw, d)) ∷ rows) = elim (Bool-cases (k == key)) [
  | inl same ↦ rw same (ap (◌∷◌ (k, raw)) (filter-stored key rows))
  | inr other ↦ rw other (filter-stored key rows)
]

pub one_table-Selects :
    (rows : TableRows ℤ)
    → Selects one_table
        (physical_table_name "db" "c")
        (record { rows = stored rows; pending = [] })
        rows
one_table-Selects rows = record {
  every_row = ap ok (answer-stored rows);
  first_rows = λ n. ap ok (ap answer (take-stored n rows) ∙ answer-stored (take n rows));
  row_of = λ key. ap ok (ap answer (filter-stored key rows) ∙ answer-stored (with_key key rows));
  first_row_of = λ key n. ap ok (
      ap (λ t. answer (take n t)) (filter-stored key rows)
      ∙ ap answer (take-stored n (with_key key rows))
      ∙ answer-stored (take n (with_key key rows)));
}
