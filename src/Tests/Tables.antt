-- ===== src/Tests/Tables.antt =====
-- A connection to a database of tables, for `DropDatabase` of internal/backend/tidb/store.go.
use timongo.Prelude.{
  and_false, true_right, ok-injective, arith, String, ℕ, Bool, true, false, List, [], ◌∷◌, ◌++◌,
  if◌then◌else◌, ◌&&◌, not, eqb, filter, drop, take, none, ◌≡◌, refl, ◌∙◌, ap, sym, Result, ok,
  Bool-cases, inl, inr,
}
use timongo.Prelude.Int.{ℤ}
use timongo.Tidb.Schema.{codes, same_codes, physical_table_name}
use timongo.Tidb.Connection.{Connection, Statement, text, Rows, last, row}
use timongo.Tidb.Rows.{read_tables}
use timongo.Tidb.Catalog.{like_pattern, drop_database_in_tidb}
use timongo.Tidb.Catalog.Pattern.{like}
use timongo.Tidb.Catalog.Dropped.{is_listed, ShowsTables, drop_database_in_tidb-drops}
use timongo.Tests.{whole}
use timongo.Tests.Rows.{texts}

abbrev names_of : List String → Rows String
names_of [] = last (ok tt)
names_of (s ∷ tables) = row (ok s) (names_of tables)

abbrev front : List ℕ → List ℕ
front [] = []
front (c ∷ []) = []
front (c ∷ d ∷ s) = c ∷ front (d ∷ s)

front-append : (s : List ℕ) (c : ℕ) → front (s ++ c ∷ []) ≡ s
front-append [] c = refl
front-append (d ∷ []) c = refl
front-append (d ∷ e ∷ s) c = ap (◌∷◌ d) (front-append (e ∷ s) c)

-- Which tables a statement leaves: `DROP TABLE` takes one out.
abbrev after : List ℕ → List String → List String
after query tables =
    if same_codes (take 2 query) (codes "DR")
    then filter (λ s. not (same_codes (front (drop 22 query)) (codes s))) tables
    else tables

abbrev show_tables : Statement ℤ → List String → Result (Rows String)
show_tables (query, text p ∷ []) tables = ok (names_of (filter (λ s. like p (codes s)) tables))
show_tables statement tables = ok (last (ok tt))

abbrev many_tables : Connection ℤ (List String)
many_tables = record {
  exec = λ statement tables. (after statement.0 tables, ok tt);
  query = show_tables;
  query_pairs = λ statement tables. ok (last (ok tt));
  query_text = λ statement tables. ok none;
  query_number = λ statement tables. ok none;
  begin = λ tables. (tables, ok tt);
  tx_exec = λ statement tables. (tables, ok tt);
  commit = λ tables. (tables, ok tt);
  rollback = λ tables. tables;
  ping = λ tables. ok tt;
  close = λ tables. (tables, ok tt);
}

same_codes-eq : (s t : List ℕ) → same_codes s t ≡ true → s ≡ t
same_codes-eq [] [] h = refl
same_codes-eq (a ∷ s) (b ∷ t) h =
    let same : a ≡ b = ground arith in
    rw (same, same_codes-eq s t (true_right (eqb a b) (same_codes s t) h)) refl
same_codes-eq [] (b ∷ t) h = cc
same_codes-eq (a ∷ s) [] h = cc

is_listed-filter :
    (p : List ℕ → Bool) (t : List ℕ) (tables : List String)
    → is_listed t (filter (λ s. p (codes s)) tables) ≡ (is_listed t tables && p t)
is_listed-filter p t [] = refl
is_listed-filter p t (s ∷ tables) =
    let rest = is_listed-filter p t tables in
    elim (Bool-cases (same_codes (codes s) t)) [
      | inl same ↦
          let found = ap p (same_codes-eq (codes s) t same) in
          elim (Bool-cases (p (codes s))) [
            | inl good ↦ rw (good, same, ← found) (sym good)
            | inr bad ↦ rw (bad, same) (rest ∙ rw (← found, bad) (and_false _) ∙ sym bad ∙ found)
          ]
      | inr other ↦ elim (Bool-cases (p (codes s))) [
        | inl good ↦ rw (good, other) rest
        | inr bad ↦ rw (bad, other) rest
      ]
    ]

read_tables-names : (tables : List String) → read_tables (names_of tables) ≡ ok tables
unfolding read_tables
read_tables-names [] = refl
read_tables-names (s ∷ tables) = rw (read_tables-names tables) refl

many_tables-ShowsTables : ShowsTables many_tables (λ tables t. is_listed t tables)
unfolding codes
many_tables-ShowsTables = record {
  listed = λ p c rows tables asked read t.
      let shown = filter (λ s. like p (codes s)) c in
      let same : shown ≡ tables =
        ok-injective (sym (read_tables-names shown) ∙ ap read_tables (ok-injective asked) ∙ read) in
      ap (is_listed t) (sym same) ∙ is_listed-filter (like p) t c;
  dropped = λ t other c h.
      ap (λ u. is_listed other (filter (λ s. not (same_codes u (codes s))) c)) (front-append t b'`')
      ∙ is_listed-filter (λ u. not (same_codes t u)) other c;
  erased = λ args c t. refl;
}

abbrev shops : List String
shops = "tm_doc_shop_orders" ∷ "tm_doc_shop_eu_orders" ∷ "tm_doc_bar_orders" ∷ []

-- `dropDatabase` of `shop` drops the table of the database `shop_eu` as well.
drop_shop : drop_database_in_tidb many_tables texts "shop" shops ≡ ("tm_doc_bar_orders" ∷ [], ok tt)
unfolding drop_database_in_tidb like like_pattern physical_table_name
drop_shop = refl

drop_database_in_tidb-drops_example :
    ((t : List ℕ)
      → is_listed t (drop_database_in_tidb many_tables texts "shop" shops).0
        ≡ (is_listed t shops && not (like (like_pattern "shop") t)))
    × (is_listed
          (physical_table_name "shop" "orders")
          (drop_database_in_tidb many_tables texts "shop" shops).0
        ≡ false)
unfolding codes
drop_database_in_tidb-drops_example =
    drop_database_in_tidb-drops many_tables-ShowsTables texts "shop" "orders" shops refl refl
      (ap (λ out. out.1) drop_shop)
