-- ===== src/Memory/Insert/Copy.antt =====
-- To insert the documents of one collection into an empty one without a validator.
use timongo.Prelude.{
  arith, String, true, List, [], ◌∷◌, none, ◌≡◌, refl, ◌∙◌, ok, map, length, eq_iff, eq_refl,
}
use timongo.Prelude.Dict.{Dict, lookup, insert, has, lookup-insert}
use timongo.Value.{null, Doc}
use timongo.Go.{Go}
use timongo.Mql.Schema.{validate_json_schema}
use timongo.Bsonutil.{document_id_key}
use timongo.Memory.Store.{Store, namespace, documents}
use timongo.Memory.Insert.{admit, insert_docs, insert_many, validator_of}
use timongo.Memory.Insert.Laws.{insert_docs-ok, keyed, result-insert_many, insert_many-ok}
use timongo.Memory.Keys.{IsKeyed}

module _ {F : Type 0} ⦃go : Go F⦄ where
  abbrev pub values : Dict (Doc F) → List (Doc F)
  values c = map (λ e. e.1) c

  validate-null : (d : Doc F) → validate_json_schema null d ≡ ok tt
  unfolding validate_json_schema lookup
  validate-null d = refl

  admit-fresh :
      (d : Doc F) (coll : Dict (Doc F)) (key : String)
      → document_id_key d ≡ ok key
      → lookup key coll ≡ none
      → admit null d coll ≡ ok key
  unfolding admit
  admit-fresh d coll key e fresh = rw (validate-null d, e, has, fresh) refl

  -- The documents of a collection, when no key of it is there yet.
  insert_docs-values :
      (c coll : Dict (Doc F))
      → IsKeyed c
      → ((key : String) → has key c ≡ true → lookup key coll ≡ none)
      → (insert_docs null (values c) coll).1 ≡ ok tt
  unfolding lookup
  insert_docs-values [] coll h apart = unfold insert_docs in refl
  insert_docs-values ((k, d) ∷ c) coll h apart =
      rw
        (insert_docs-ok null d (values c) coll k
          (admit-fresh d coll k h.0 (apart k (rw (has, eq_refl k) refl))))
        (insert_docs-values c (insert k d coll) h.2
          λ key there. ground (arith, apart key, lookup-insert k key d coll, h.1, eq_iff k key))

  keyed-values : (c : Dict (Doc F)) (key : String) → IsKeyed c → keyed key (values c) ≡ lookup key c
  unfolding lookup
  keyed-values [] key h = refl
  keyed-values ((k, d) ∷ c) key h = ground (arith, keyed-values c key h.2, h.0)

  pub insert_many-values :
      (db collection : String) (c : Dict (Doc F)) (s : Store F)
      → IsKeyed c
      → documents (namespace db collection) s ≡ []
      → validator_of (namespace db collection) s ≡ null
      → let r = insert_many db collection (values c) s in
        (r.1 ≡ ok (length (values c)))
        × ((key : String) → lookup key (documents (namespace db collection) r.0) ≡ lookup key c)
  insert_many-values db collection c s h bare open_ =
      let stored =
        result-insert_many db collection (values c) s
        ∙ rw (bare, open_)
            (rw (insert_docs-values c [] h (λ key there. unfold lookup in refl)) refl) in
      (
        stored,
        λ key.
            (insert_many-ok db collection (values c) s (length (values c)) stored).2 key
            ∙ rw bare (unfold lookup in keyed-values c key h),
      )
