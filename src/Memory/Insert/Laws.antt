-- ===== src/Memory/Insert/Laws.antt =====
-- What `Insert` stores, on success and on failure.
use text.Mathlib.Text.{◌==◌}
use timongo.Prelude.{
  true, subst, return-eq-ok, ok-injective, eq_refl, Error, duplicate_key, Result-cases, String, ℕ,
  ◌+◌, Bool, false, List, [], ◌∷◌, ◌++◌, ◌≡◌, refl, sym, ap, ◌∙◌, arith, Option, none, some,
  if◌then◌else◌, Result, ok, err, panic, ◌>>=◌, >>=-eq-ok, length, eq_iff, inl, inr,
}
use timongo.Prelude.Dict.{Dict, lookup, insert, has, or_else, lookup-insert, length-insert_new}
use timongo.Value.{Value, Doc}
use timongo.Go.{Go}
use timongo.Mql.Schema.{validate_json_schema}
use timongo.Bsonutil.{document_id_key}
use timongo.Memory.Store.{Store, namespace, documents}
use timongo.Memory.Store.Laws.{documents-open_collection, options-open_collection}
use timongo.Memory.Insert.{admit, insert_docs, insert_many, validator_of}

abbrev pub is_ok : {A : Type 0} → Result A → Bool
is_ok r = elim r [ ok _ ↦ true | _ ↦ false ]

module _ {F : Type 0} ⦃go : Go F⦄ where
  -- The document of a list that has the key, if one has it.
  abbrev pub has_key : String → Doc F → Bool
  has_key k d = elim (document_id_key d) [ ok j ↦ j == k | err _ ↦ false | panic ↦ false ]

  abbrev pub keyed : String → List (Doc F) → Option (Doc F)
  keyed k [] = none
  keyed k (d ∷ ds) = let rest = keyed k ds in if has_key k d then some d else rest

  fresh_key :
      (key : String) (coll : Dict (Doc F)) (k : String)
      → (if has key coll then err (duplicate_key key) else ok key) ≡ ok k
      → (key ≡ k) × (lookup k coll ≡ none)
  fresh_key key coll k h = ground arith

  pub admit-eq-ok :
      (v : Value F) (d : Doc F) (coll : Dict (Doc F)) (k : String)
      → admit v d coll ≡ ok k
      → (document_id_key d ≡ ok k) × (lookup k coll ≡ none)
  unfolding admit
  admit-eq-ok v d coll k h =
      let (_, _, h') = >>=-eq-ok (validate_json_schema v d) _ h in
      let (key, found, h'') = >>=-eq-ok (document_id_key d) _ h' in
      let (same, fresh) = fresh_key key coll k h'' in (found ∙ ap ok same, fresh)

  -- What one admitted document does to a lookup.
  lookup-admitted :
      (d : Doc F) (ds : List (Doc F)) (coll : Dict (Doc F)) (key k : String)
      → document_id_key d ≡ ok key
      → lookup key coll ≡ none
      → or_else (lookup k (insert key d coll)) (keyed k ds)
        ≡ or_else (lookup k coll) (keyed k (d ∷ ds))
  lookup-admitted d ds coll key k found fresh =
      ground (arith, lookup-insert key k d coll, eq_iff key k)

  -- One round of the loop, by what `admit` says.
  pub insert_docs-ok :
      (v : Value F) (d : Doc F) (ds : List (Doc F)) (coll : Dict (Doc F)) (key : String)
      → admit v d coll ≡ ok key
      → insert_docs v (d ∷ ds) coll ≡ insert_docs v ds (insert key d coll)
  unfolding insert_docs
  insert_docs-ok v d ds coll key e = rw (e, insert_docs)

  pub insert_docs-err :
      (v : Value F) (d : Doc F) (ds : List (Doc F)) (coll : Dict (Doc F)) (x : Error)
      → admit v d coll ≡ err x
      → insert_docs v (d ∷ ds) coll ≡ (coll, err x)
  unfolding insert_docs
  insert_docs-err v d ds coll x e = rw (e, insert_docs)

  pub insert_docs-panic :
      (v : Value F) (d : Doc F) (ds : List (Doc F)) (coll : Dict (Doc F))
      → admit v d coll ≡ panic
      → insert_docs v (d ∷ ds) coll ≡ (coll, panic)
  unfolding insert_docs
  insert_docs-panic v d ds coll e = rw (e, insert_docs)

  -- If the loop succeeds, so did its first round.
  insert_docs-admitted :
      (v : Value F) (d : Doc F) (ds : List (Doc F)) (coll : Dict (Doc F))
      → (insert_docs v (d ∷ ds) coll).1 ≡ ok tt
      → (key : String) × (admit v d coll ≡ ok key)
        × ((insert_docs v ds (insert key d coll)).1 ≡ ok tt)
  insert_docs-admitted v d ds coll h = elim (Result-cases (admit v d coll)) [
    | inl (key, e) ↦ (key, e, rw (insert_docs-ok v d ds coll key e) at h)
    | inr (inl (x, e)) ↦ cc (rw (insert_docs-err v d ds coll x e) at h)
    | inr (inr e) ↦ cc (rw (insert_docs-panic v d ds coll e) at h)
  ]

  insert_docs-lookup :
      (v : Value F) (ds : List (Doc F)) (coll : Dict (Doc F)) (k : String)
      → (insert_docs v ds coll).1 ≡ ok tt
      → lookup k (insert_docs v ds coll).0 ≡ or_else (lookup k coll) (keyed k ds)
  insert_docs-lookup v [] coll k h = unfold insert_docs in ground arith
  insert_docs-lookup v (d ∷ ds) coll k h =
      let (key, e, h') = insert_docs-admitted v d ds coll h in
      let (found, fresh) = admit-eq-ok v d coll key e in
      rw (insert_docs-ok v d ds coll key e) (
        insert_docs-lookup v ds (insert key d coll) k h'
        ∙ lookup-admitted d ds coll key k found fresh)

  insert_docs-length :
      (v : Value F) (ds : List (Doc F)) (coll : Dict (Doc F))
      → (insert_docs v ds coll).1 ≡ ok tt
      → length (insert_docs v ds coll).0 ≡ length coll + length ds
  insert_docs-length v [] coll h = unfold insert_docs in omega arith
  insert_docs-length v (d ∷ ds) coll h =
      let (key, e, h') = insert_docs-admitted v d ds coll h in
      let longer = length-insert_new key d coll (admit-eq-ok v d coll key e).1 in
      rw (insert_docs-ok v d ds coll key e)
        (omega (arith, insert_docs-length v ds (insert key d coll) h', longer))

  -- A loop over these documents ends at once with the result `r`: there is none, or the first is
  -- refused, for the validator, for its `_id`, or because its key is taken.
  abbrev pub StopsAt : Value F → List (Doc F) → Dict (Doc F) → Result (Unit {0}) → Type 0
  StopsAt v [] coll r = r ≡ ok tt
  StopsAt v (d ∷ ds) coll r =
      (is_ok (admit v d coll) ≡ false) × (r ≡ (admit v d coll >>= λ _. ok tt))

  -- However the loop ends, what it leaves is what it leaves for a front part of the documents, all
  -- of which it stored, and it ends in the document behind that part.
  insert_docs-front :
      (v : Value F) (ds : List (Doc F)) (coll : Dict (Doc F))
      → (front : List (Doc F)) × (rest : List (Doc F)) × (ds ≡ front ++ rest)
        × (insert_docs v front coll ≡ ((insert_docs v ds coll).0, ok tt))
        × StopsAt v rest (insert_docs v ds coll).0 (insert_docs v ds coll).1
  insert_docs-front v [] coll =
      ([], [], refl, unfold insert_docs in refl, unfold insert_docs in refl)
  insert_docs-front v (d ∷ ds) coll = elim (Result-cases (admit v d coll)) [
    | inl (key, e) ↦
        let (front, rest, split, stored, stops) = insert_docs-front v ds (insert key d coll) in
        (
          d ∷ front,
          rest,
          ap (◌∷◌ d) split,
          insert_docs-ok v d front coll key e
              ∙ stored
              ∙ ap (λ (r : Dict (Doc F) × Result (Unit {0})). (r.0, ok tt))
                  (sym (insert_docs-ok v d ds coll key e)),
          subst (λ (r : Dict (Doc F) × Result (Unit {0})). StopsAt v rest r.0 r.1)
              (sym (insert_docs-ok v d ds coll key e)) stops,
        )
    | inr (inl (x, e)) ↦ (
      [],
      d ∷ ds,
      refl,
      rw (insert_docs-err v d ds coll x e) (unfold insert_docs in refl),
      rw (insert_docs-err v d ds coll x e, e) (refl, refl),
    )
    | inr (inr e) ↦ (
      [],
      d ∷ ds,
      refl,
      rw (insert_docs-panic v d ds coll e) (unfold insert_docs in refl),
      rw (insert_docs-panic v d ds coll e, e) (refl, refl),
    )
  ]

module _ {F : Type 0} ⦃go : Go F⦄ (db collection : String) (ds : List (Doc F)) (s : Store F) where
  abbrev pub ns : String
  ns = namespace db collection

  abbrev pub before : Dict (Doc F)
  before = documents ns s

  -- The documents of a collection after the call.
  abbrev pub after : String → Dict (Doc F)
  after ns' = documents ns' (insert_many db collection ds s).0

  abbrev pub validator : Value F
  validator = validator_of ns s

  pub documents-insert_many :
      (ns' : String)
      → after ns' ≡ (if ns == ns' then (insert_docs validator ds before).0 else documents ns' s)
  unfolding insert_many
  documents-insert_many ns' =
      rw (lookup-insert ns ns', options-open_collection ns s, documents-open_collection ns ns s)
        (ground (arith, documents-open_collection ns ns' s))

  pub result-insert_many :
      (insert_many db collection ds s).1
      ≡ ((insert_docs validator ds before).1 >>= λ _. ok (length ds))
  unfolding insert_many
  result-insert_many = rw (options-open_collection ns s, documents-open_collection ns ns s) refl

  stored_all :
      (n : ℕ)
      → (insert_many db collection ds s).1 ≡ ok n
      → (insert_docs validator ds before).1 ≡ ok tt
  stored_all n h =
      (return-eq-ok (insert_docs validator ds before).1 (length ds) (rw result-insert_many at h)).0

  -- If `Insert` succeeds, it reports the number of the documents, the collection has grown by that
  -- number, a key that was there has the document that it had, a new key has the document of the
  -- request with that key, and the other collections are as they were.
  pub insert_many-ok :
      (n : ℕ)
      → (insert_many db collection ds s).1 ≡ ok n
      → (n ≡ length ds)
        × (length (after ns) ≡ length before + length ds)
        × ((k : String) → lookup k (after ns) ≡ or_else (lookup k before) (keyed k ds))
        × ((ns' : String) → after ns' ≡ (if ns == ns' then after ns else documents ns' s))
  insert_many-ok n h = (
    ok-injective
        (return-eq-ok (insert_docs validator ds before).1 (length ds)
          (rw result-insert_many at h)).1,
    rw (documents-insert_many ns, eq_refl ns)
        (insert_docs-length validator ds before (stored_all n h)),
    λ k.
        rw (documents-insert_many ns, eq_refl ns)
          (insert_docs-lookup validator ds before k (stored_all n h)),
    λ ns'. rw (documents-insert_many ns', documents-insert_many ns, eq_refl ns) refl,
  )

module _ {F : Type 0} ⦃go : Go F⦄ where
  -- However `Insert` ends, the collection holds what it would hold after an insert of a front part of
  -- the documents that succeeds. The part is all of them, and the insert succeeds, or the document
  -- behind it is refused in the collection with the others stored, and its error is the result.
  pub insert_many-front :
      (db collection : String) (ds : List (Doc F)) (s : Store F)
      → (front : List (Doc F)) × (rest : List (Doc F)) × (ds ≡ front ++ rest)
        × ((insert_many db collection front s).1 ≡ ok (length front))
        × (documents (namespace db collection) (insert_many db collection front s).0
            ≡ documents (namespace db collection) (insert_many db collection ds s).0)
        × (r : Result (Unit {0})) × StopsAt
            (validator_of (namespace db collection) s)
            rest
            (documents (namespace db collection) (insert_many db collection ds s).0)
            r
        × ((insert_many db collection ds s).1 ≡ (r >>= λ _. ok (length ds)))
  insert_many-front db collection ds s =
      let ns = namespace db collection in
      let v = validator_of ns s in
      let (front, rest, split, stored, stops) = insert_docs-front v ds (documents ns s) in
      (
        front,
        rest,
        split,
        result-insert_many db collection front s
            ∙ ap (λ (r : Dict (Doc F) × Result (Unit {0})). r.1 >>= λ _. ok (length front)) stored,
        rw
            (
              documents-insert_many db collection front s ns,
              documents-insert_many db collection ds s ns,
              eq_refl ns,
            )
            (ap (λ (r : Dict (Doc F) × Result (Unit {0})). r.0) stored),
        (insert_docs v ds (documents ns s)).1,
        rw (documents-insert_many db collection ds s ns, eq_refl ns) stops,
        result-insert_many db collection ds s,
      )
