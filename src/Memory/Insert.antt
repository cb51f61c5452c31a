-- ===== src/Memory/Insert.antt =====
-- internal/backend/memory/memory.go: `Insert`.
pub mod Laws
pub mod Copy
use timongo.Prelude.{
  String, ℕ, List, [], ◌∷◌, if◌then◌else◌, Result, ok, err, panic, duplicate_key, ◌>>=◌, ◌>>◌,
  length,
}
use timongo.Prelude.Dict.{Dict, lookup, insert, has}
use timongo.Value.{Value, Doc}
use timongo.Go.{Go}
use timongo.Mql.Schema.{validate_json_schema}
use timongo.Mql.Update.Operators.{get}
use timongo.Bsonutil.{document_id_key}
use timongo.Memory.Store.{Store, namespace, or_empty, open_collection, documents}

module _ {F : Type 0} ⦃go : Go F⦄ where
  -- One round of the loop: the key of a document that may be stored.
  unfoldable pub admit : Value F → Doc F → Dict (Doc F) → Result String
  admit validator d coll = do
    validate_json_schema validator d
    key ← document_id_key d
    if has key coll then err (duplicate_key key) else ok key

  -- The loop: the collection after it, and the error if there was one.
  unfoldable pub insert_docs :
      Value F → List (Doc F) → Dict (Doc F) → Dict (Doc F) × Result (Unit {0})
  insert_docs validator [] coll = (coll, ok tt)
  insert_docs validator (d ∷ ds) coll = elim (admit validator d coll) [
    | ok key ↦ insert_docs validator ds (insert key d coll)
    | err e ↦ (coll, err e)
    | panic ↦ (coll, panic)
  ]

  abbrev pub validator_of : String → Store F → Value F
  validator_of ns s = get "validator" (or_empty (lookup ns s.options))

  unfoldable pub insert_many : String → String → List (Doc F) → Store F → Store F × Result ℕ
  unfolding open_collection
  insert_many db collection ds s =
      let ns = namespace db collection in
      let s' = open_collection ns s in
      let (coll, r) = insert_docs (validator_of ns s') ds (documents ns s') in
      (record s' { collections = insert ns coll s'.collections }, r >>= λ _. ok (length ds))
