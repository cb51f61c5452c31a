-- ===== src/Tidb/Read/Shown.antt =====
-- internal/backend/tidb/store.go: the rows of a table, and the loop of `Find` over them.
use text.Mathlib.Text.{◌==◌}
use timongo.Prelude.{
  arith, String, ℕ, zero, suc, true, List, [], ◌∷◌, ◌++◌, filter, length, take, not, all, ◌||◌, ◌≤◌,
  ◌≡◌, refl, ap, ok, Bool-cases, inl, inr, subst, map, none, eq_iff,
}
use timongo.Prelude.Int.{pos}
use timongo.Prelude.Dict.{Dict, lookup, IsMap}
use timongo.Value.{Value, str, int64, Doc}
use timongo.Go.{Go}
use timongo.Bsonutil.{value_key}
use timongo.Bsonutil.ExtJson.{ExtJson, unmarshal_ext_json}
use timongo.Mql.Match.{matches}
use timongo.Tidb.Schema.{codes}
use timongo.Tidb.Connection.{Connection, value, Rows, row, last}
use timongo.Tidb.FindSql.{select_all}
use timongo.Tidb.Rows.{read_matching}
use timongo.Tidb.Read.{ensure_table}

-- The rows of a table, in the order of a SELECT: under the key, the JSON that the row shows and the
-- document that it holds.
abbrev pub TableRows : Type 0 → Type 0
TableRows F = Dict (String × Doc F)

module _ {F : Type 0} where
  -- What a query returns that reads these rows, with no error on the way.
  abbrev pub shown : TableRows F → Rows String
  shown [] = last (ok tt)
  shown ((key, (raw, d)) ∷ rows) = row (ok raw) (shown rows)

  abbrev pub held : TableRows F → List (Doc F)
  held rows = map (λ r. r.1.1) rows

  abbrev pub with_key : String → TableRows F → TableRows F
  with_key key rows = filter (λ r. r.0 == key) rows

  pub held-take : (n : ℕ) (rows : TableRows F) → held (take n rows) ≡ take n (held rows)
  held-take zero rows = refl
  held-take (suc n) [] = refl
  held-take (suc n) (r ∷ rows) = ap (◌∷◌ r.1.1) (held-take n rows)

  -- What SQL documents of the queries of `Find`: all the rows, the row of a key, and the first `n` of
  -- either.
  pub record Selects {C : Type 0} (conn : Connection F C) (table : List ℕ) (c : C)
      (rows : TableRows F) : Type 0 where
    pub every_row : conn.query (select_all table, []) c ≡ ok (shown rows)
    pub first_rows :
        (n : ℕ)
        → conn.query (select_all table ++ codes " LIMIT ?", value (int64 (pos n)) ∷ []) c
          ≡ ok (shown (take n rows))
    pub row_of :
        (key : String)
        → conn.query (select_all table ++ codes " WHERE `id_key` = ?", value (str key) ∷ []) c
          ≡ ok (shown (with_key key rows))
    pub first_row_of :
        (key : String) (n : ℕ)
        → conn.query
            (
              (select_all table ++ codes " WHERE `id_key` = ?") ++ codes " LIMIT ?",
              value (str key) ∷ value (int64 (pos n)) ∷ [],
            )
            c
          ≡ ok (shown (take n (with_key key rows)))

  -- Each row shows the JSON of the document that it holds.
  abbrev pub Shows : ExtJson F → TableRows F → Type 0
  Shows json [] = Unit {0}
  Shows json ((key, (raw, d)) ∷ rows) = (unmarshal_ext_json json raw ≡ ok d) × Shows json rows

  pub take-Shows :
      (json : ExtJson F) (n : ℕ) (rows : TableRows F) → Shows json rows → Shows json (take n rows)
  take-Shows json zero rows h = tt
  take-Shows json (suc n) [] h = tt
  take-Shows json (suc n) ((key, (raw, d)) ∷ rows) h = (h.0, take-Shows json n rows h.1)

  pub with_key-Shows :
      (json : ExtJson F) (key : String) (rows : TableRows F)
      → Shows json rows
      → Shows json (with_key key rows)
  with_key-Shows json key [] h = tt
  with_key-Shows json key ((k, (raw, d)) ∷ rows) h = elim (Bool-cases (k == key)) [
    | inl same ↦ rw same (h.0, with_key-Shows json key rows h.1)
    | inr other ↦ rw other (with_key-Shows json key rows h.1)
  ]

module _ {F : Type 0} ⦃go : Go F⦄ (json : ExtJson F) where
  pub read_matching-shown :
      (f : Doc F) (rows : TableRows F)
      → Shows json rows
      → read_matching json f (shown rows) ≡ ok (filter (λ d. matches d f) (held rows))
  unfolding read_matching
  read_matching-shown f [] h = refl
  read_matching-shown f ((key, (raw, d)) ∷ rows) h = rw (h.0, read_matching-shown f rows h.1) refl

module _ {F : Type 0} where
  -- A key stands in one row at most.
  with_key-none :
      (key : String) (rows : TableRows F) → lookup key rows ≡ none → with_key key rows ≡ []
  unfolding lookup
  with_key-none key [] h = refl
  with_key-none key ((k, r) ∷ rows) h = ground (arith, with_key-none key rows)

  pub length-with_key :
      (key : String) (rows : TableRows F) → IsMap rows → length (with_key key rows) ≤ 1
  length-with_key key [] h = omega arith
  length-with_key key ((k, r) ∷ rows) h = elim (Bool-cases (k == key)) [
    | inl same ↦
        rw
          (
            same,
            with_key-none key rows (subst (λ j. lookup j rows ≡ none) ((eq_iff k key).0 same) h.0),
          )
          (omega arith)
    | inr other ↦ rw other (length-with_key key rows h.1)
  ]

module _ {F : Type 0} ⦃go : Go F⦄ where
  -- Where all that match stand under one key, nothing is lost by a look at that key alone.
  pub matches-with_key :
      (f : Doc F) (key : String) (rows : TableRows F)
      → all (λ r. not (matches r.1.1 f) || r.0 == key) rows ≡ true
      → filter (λ d. matches d f) (held (with_key key rows)) ≡ filter (λ d. matches d f) (held rows)
  matches-with_key f key [] h = refl
  matches-with_key f key ((k, (raw, d)) ∷ rows) h = ground (arith, matches-with_key f key rows)

  -- A filter that is one `_id` is a key, under which each document stands that it matches.
  abbrev pub IdKey : TableRows F → Doc F → Type 0
  IdKey rows f =
      (wanted : Value F) × (key : String) × (f ≡ ("_id", wanted) ∷ [])
      × (value_key wanted ≡ ok key)
      × (all (λ r. not (matches r.1.1 f) || r.0 == key) rows ≡ true)

-- The table is there after `ensureCollection`.
abbrev pub TableMade : {F C : Type 0} → Connection F C → List ℕ → C → C → Type 0
TableMade conn table c c' = ensure_table conn table c ≡ (c', ok tt)
