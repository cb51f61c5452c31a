-- ===== src/Tidb/Read/Laws.antt =====
-- A find on TiDB and a find in memory.
use text.Mathlib.Text.{◌==◌}
use timongo.Prelude.{
  arith, String, ℕ, true, List, [], ◌∷◌, if◌then◌else◌, filter, is_empty, length, take, ltb, not,
  all, ◌||◌, ◌<◌, ◌≡◌, refl, ◌∙◌, ap, sym, Result, ok, length-take, Bool-cases, ◌⊎◌, inl, inr,
  take-all, subst,
}
use timongo.Prelude.Int.{ℤ, pos, negsuc, eqb_ℤ}
use timongo.Prelude.Dict.{IsMap}
use timongo.Value.{Value, Doc}
use timongo.Go.{Go}
use timongo.Bsonutil.{value_key}
use timongo.Bsonutil.ExtJson.{ExtJson}
use timongo.Mql.Match.{matches}
use timongo.Mql.Options.{apply_find_options}
use timongo.Mql.Sort.{sort_docs}
use timongo.Backend.{FindRequest}
use timongo.Memory.Store.{Store, namespace, documents}
use timongo.Memory.Read.{find}
use timongo.Memory.Read.Laws.{matching-empty}
use timongo.Memory.Insert.Copy.{values}
use timongo.Tidb.Schema.{physical_table_name}
use timongo.Tidb.Connection.{Connection, Statement}
use timongo.Tidb.FindSql.{can_push_down_find, can_push_down_filter, build_find_sql}
use timongo.Tidb.Read.{find_in_tidb, options_of}
use timongo.Tidb.Read.Shown.{
  TableMade, IdKey, TableRows, shown, held, with_key, Selects, Shows, take-Shows, with_key-Shows,
  held-take, read_matching-shown, length-with_key, matches-with_key,
}

ltb→lt : (a b : ℕ) → ltb a b ≡ true → a < b
ltb→lt a b h = ground arith

is_empty-eq {ℓ} : {A : Type ℓ} (xs : List A) → is_empty xs ≡ true → xs ≡ []
is_empty-eq [] h = refl
is_empty-eq (x ∷ xs) h = cc

no_skip-eq : (n : ℤ) → eqb_ℤ n (pos 0) ≡ true → n ≡ pos 0
no_skip-eq (pos n) h = ap pos (ground arith)
no_skip-eq (negsuc n) h = ground arith

-- The first elements, of no more than those.
take_limited :
    {A : Type 0} (n : ℕ) (xs : List A)
    → (if ltb n (length (take n xs)) then take n (take n xs) else take n xs)
      ≡ (if ltb n (length xs) then take n xs else xs)
take_limited n xs = ground (arith, length-take n xs, take-all n xs)

module _ {F C : Type 0} ⦃go : Go F⦄ (conn : Connection F C) (json : ExtJson F)
    (db collection : String) (rows : TableRows F) (c c' : C) where
  abbrev found : FindRequest F → TableRows F → C × Result (List (Doc F))
  found req rs =
      (c', ok (apply_find_options (filter (λ d. matches d req.filter) (held rs)) (options_of req)))

  found_by_query :
      (req : FindRequest F) (statement : Statement F) (rs : TableRows F)
      → TableMade conn (physical_table_name db collection) c c'
      → build_find_sql db collection req ≡ ok statement
      → conn.query statement c' ≡ ok (shown rs)
      → Shows json rs
      → find_in_tidb conn json db collection req c ≡ found req rs
  unfolding find_in_tidb
  found_by_query req statement rs made built answered shows =
      rw (made, built, answered, read_matching-shown json req.filter rs shows) refl

  abbrev pushed_request : Doc F → ℤ → FindRequest F
  pushed_request f limit = record {
    filter = f;
    projection = [];
    sort = [];
    skip = pos 0;
    limit = limit;
  }

  -- What is pushed down asks for nothing but a filter and a limit.
  pushed-eq :
      (req : FindRequest F)
      → can_push_down_find req ≡ true
      → req ≡ pushed_request req.filter req.limit
  unfolding can_push_down_find
  pushed-eq req pushed =
      let projection_eq = is_empty-eq req.projection (ground arith) in
      let sort_eq = is_empty-eq req.sort (ground arith) in
      let skip_eq = no_skip-eq req.skip (ground arith) in
      λ i. record {
        filter = req.filter;
        projection = projection_eq i;
        sort = sort_eq i;
        skip = skip_eq i;
        limit = req.limit;
      }

  find-whole :
      TableMade conn (physical_table_name db collection) c c'
      → Selects conn (physical_table_name db collection) c' rows
      → Shows json rows
      → (limit : ℤ)
      → find_in_tidb conn json db collection (pushed_request [] limit) c
        ≡ found (pushed_request [] limit) rows
  unfolding build_find_sql can_push_down_find can_push_down_filter apply_find_options sort_docs
  find-whole made sql shows (negsuc n) =
      found_by_query (pushed_request [] (negsuc n)) _ rows made refl sql.every_row shows
  find-whole made sql shows (pos n) = elim (Bool-cases (ltb 0 n)) [
    | inl h ↦
        found_by_query (pushed_request [] (pos n)) _ (take n rows) made (rw h refl)
          (sql.first_rows n) (take-Shows json n rows shows)
        ∙ rw (held-take n rows, matching-empty (take n (held rows)), matching-empty (held rows), h)
            (ap (λ ds. (c', ok ds)) (take_limited n (held rows)))
    | inr h ↦ found_by_query (pushed_request [] (pos n)) _ rows made (rw h refl) sql.every_row shows
  ]

  same_found :
      (req : FindRequest F) (key : String)
      → all (λ r. not (matches r.1.1 req.filter) || r.0 == key) rows ≡ true
      → found req (with_key key rows) ≡ found req rows
  same_found req key one =
      ap (λ ds. (c', ok (apply_find_options ds (options_of req))))
        (matches-with_key req.filter key rows one)

  pushed_filter :
      (req : FindRequest F) → can_push_down_find req ≡ true → can_push_down_filter req.filter ≡ true
  unfolding can_push_down_find
  pushed_filter req h = ground arith

  find-by_key :
      TableMade conn (physical_table_name db collection) c c'
      → Selects conn (physical_table_name db collection) c' rows
      → Shows json rows
      → IsMap rows
      → (wanted : Value F) (key : String) (limit : ℤ)
      → can_push_down_find (pushed_request (("_id", wanted) ∷ []) limit) ≡ true
      → value_key wanted ≡ ok key
      → all (λ r. not (matches r.1.1 (("_id", wanted) ∷ [])) || r.0 == key) rows ≡ true
      → find_in_tidb conn json db collection (pushed_request (("_id", wanted) ∷ []) limit) c
        ≡ found (pushed_request (("_id", wanted) ∷ []) limit) rows
  unfolding build_find_sql
  find-by_key made sql shows maps wanted key (negsuc n) pushed keyed one =
      let f : Doc F = ("_id", wanted) ∷ [] in
      found_by_query (pushed_request f (negsuc n)) _ (with_key key rows) made
        (rw (pushed, keyed) refl) (sql.row_of key) (with_key-Shows json key rows shows)
      ∙ same_found (pushed_request f (negsuc n)) key one
  find-by_key made sql shows maps wanted key (pos n) pushed keyed one =
      let f : Doc F = ("_id", wanted) ∷ [] in
      let kept = with_key-Shows json key rows shows in
      elim (Bool-cases (ltb 0 n)) [
        | inl h ↦
            let few =
              take-all n (with_key key rows)
                (omega (arith, length-with_key key rows maps, ltb→lt 0 n h)) in
            found_by_query (pushed_request f (pos n)) _ (with_key key rows) made
              (rw (pushed, keyed, h) refl) (rw few at (sql.first_row_of key n)) kept
            ∙ same_found (pushed_request f (pos n)) key one
        | inr h ↦
            found_by_query (pushed_request f (pos n)) _ (with_key key rows) made
              (rw (pushed, keyed, h) refl) (sql.row_of key) kept
            ∙ same_found (pushed_request f (pos n)) key one
      ]

  find-pushed :
      TableMade conn (physical_table_name db collection) c c'
      → Selects conn (physical_table_name db collection) c' rows
      → Shows json rows
      → IsMap rows
      → (f : Doc F) (limit : ℤ) → can_push_down_find (pushed_request f limit) ≡ true
      → (is_empty f ≡ true) ⊎ IdKey rows f
      → find_in_tidb conn json db collection (pushed_request f limit) c
        ≡ found (pushed_request f limit) rows
  find-pushed made sql shows maps [] limit pushed general = find-whole made sql shows limit
  find-pushed made sql shows maps ((j, v) ∷ f) limit pushed (inl e) = cc
  find-pushed made sql shows maps ((j, v) ∷ f) limit pushed (inr (wanted, key, eq, keyed, one)) =
      subst
        (λ g.
          can_push_down_find (pushed_request g limit) ≡ true
          → all (λ r. not (matches r.1.1 g) || r.0 == key) rows ≡ true
          → find_in_tidb conn json db collection (pushed_request g limit) c
            ≡ found (pushed_request g limit) rows)
        (sym eq) (λ p o. find-by_key made sql shows maps wanted key limit p keyed o) pushed one

  -- A find on TiDB returns what a find in memory returns on a collection with the same documents in
  -- the order of the rows, whatever of it is pushed down into the statement. Where the filter is one
  -- `_id` alone, this needs its key to be the key of every document that it matches.
  pub find_in_tidb-eq-find :
      (req : FindRequest F) (s : Store F)
      → TableMade conn (physical_table_name db collection) c c'
      → Selects conn (physical_table_name db collection) c' rows
      → Shows json rows
      → IsMap rows
      → values (documents (namespace db collection) s) ≡ held rows
      → (can_push_down_filter req.filter ≡ true
          → (is_empty req.filter ≡ true) ⊎ IdKey rows req.filter)
      → find_in_tidb conn json db collection req c ≡ (c', ok (find db collection req s))
  unfolding find build_find_sql
  find_in_tidb-eq-find req s made sql shows maps same general =
      to_rows
      ∙ ap
          (λ ds.
            (c', ok (apply_find_options (filter (λ d. matches d req.filter) ds) (options_of req))))
          (sym same)
    where
      to_rows : find_in_tidb conn json db collection req c ≡ found req rows
      to_rows = elim (Bool-cases (can_push_down_find req)) [
        | inl pushed ↦
            subst (λ r. find_in_tidb conn json db collection r c ≡ found r rows)
              (sym (pushed-eq req pushed))
              (find-pushed made sql shows maps req.filter req.limit
                (subst (λ r. can_push_down_find r ≡ true) (pushed-eq req pushed) pushed)
                (general (pushed_filter req pushed)))
        | inr whole ↦ found_by_query req _ rows made (rw whole refl) sql.every_row shows
      ]
