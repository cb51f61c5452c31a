-- ===== src/Memory/Read/Laws.antt =====
-- What the reads return.
use timongo.Prelude.{
  ◌⊎◌, inl, inr, Bool-cases, if◌then◌else◌, panic, any, ◌↔◌, false, true, not, ◌++◌, ok, none, some,
  Option, Bool, String, List, [], ◌∷◌, ◌≡◌, refl, ap, length, filter, map,
}
use timongo.Prelude.Dict.{lookup}
use timongo.Value.{of_doc, Value, Doc}
use timongo.Go.{Go}
use timongo.Mql.Match.{matches, match_fields}
use timongo.Memory.Store.{documents, Store, namespace}
use timongo.Mql.Options.{apply_find_options}
use timongo.Mql.Sort.{sort_docs}
use timongo.Mql.Pipeline.Laws.{stage, apply_pipeline-match}
use timongo.Memory.Read.{
  add_value, identical, hashable, distinct_values, distinct, aggregate, matching, find, by_filter,
  count,
}

module _ {F : Type 0} ⦃go : Go F⦄ where
  -- A find by a filter alone returns the documents that match, in the collection's order.
  pub find-by_filter :
      (db collection : String) (f : Doc F) (s : Store F)
      → find db collection (by_filter f) s ≡ matching f (documents (namespace db collection) s)
  unfolding find apply_find_options sort_docs
  find-by_filter db collection f s = refl

  pub count-eq-length :
      (db collection : String) (f : Doc F) (s : Store F)
      → count db collection f s ≡ length (matching f (documents (namespace db collection) s))
  unfolding count
  count-eq-length db collection f s = ap length (find-by_filter db collection f s)

  pub matching-empty : (ds : List (Doc F)) → filter (λ d. matches d []) ds ≡ ds
  unfolding matches match_fields
  matching-empty [] = refl
  matching-empty (d ∷ ds) = ap (◌∷◌ d) (matching-empty ds)

  abbrev is_unhashable : Option (Value F) → Bool
  is_unhashable none = false
  is_unhashable (some v) = not (hashable v)

  -- The document has a value at the key that Go cannot use as a map's key.
  abbrev pub unhashable_at : String → Doc F → Bool
  unhashable_at key d = is_unhashable (lookup key d)

  add_value-cases :
      (o : Option (Value F)) (seen : List (Value F))
      → ((add_value o seen ≡ panic) × (is_unhashable o ≡ true))
        ⊎ ((seen' : List (Value F)) × (add_value o seen ≡ ok seen') × (is_unhashable o ≡ false))
  add_value-cases none seen = inr (seen, refl, refl)
  add_value-cases (some v) seen = elim (Bool-cases (hashable v)) [
    | inl h ↦
        inr (if any (λ w. identical w v) seen then seen else seen ++ v ∷ [], rw h refl, rw h refl)
    | inr h ↦ inl (rw h refl, rw h refl)
  ]

  distinct_values-panic_iff :
      (key : String) (ds : List (Doc F)) (seen : List (Value F))
      → (distinct_values key ds seen ≡ panic) ↔ (any (unhashable_at key) ds ≡ true)
  unfolding distinct_values
  distinct_values-panic_iff key [] seen = (λ h. cc, λ h. cc)
  distinct_values-panic_iff key (d ∷ ds) seen = elim (add_value-cases (lookup key d) seen) [
    | inl (e, u) ↦ rw (e, u) (λ _. refl, λ _. refl)
    | inr (seen', e, u) ↦ rw (e, u) (distinct_values-panic_iff key ds seen')
  ]

  -- `Distinct` panics exactly when a document that matches has, at the key, a value that cannot be
  -- a key of a Go map: a document, an array, a byte slice, or a value of another type that is not
  -- hashable.
  pub distinct-panic_iff :
      (db collection key : String) (f : Doc F) (s : Store F)
      → (distinct db collection key f s ≡ panic)
        ↔ (any (unhashable_at key) (matching f (documents (namespace db collection) s)) ≡ true)
  unfolding distinct
  distinct-panic_iff db collection key f s =
      rw (find-by_filter db collection f s)
        (distinct_values-panic_iff key (matching f (documents (namespace db collection) s)) [])

  -- An aggregation with one `$match` returns what a find by that filter returns.
  pub aggregate-match :
      (db collection : String) (f : Doc F) (s : Store F)
      → aggregate db collection (stage "$match" (of_doc f) ∷ []) s
        ≡ ok (find db collection (by_filter f) s)
  unfolding aggregate
  aggregate-match db collection f s =
      let ds = map (λ e. e.1) (documents (namespace db collection) s) in
      rw (find-by_filter db collection [] s, find-by_filter db collection f s, matching-empty ds)
        (apply_pipeline-match f ds)
