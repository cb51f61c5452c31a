-- ===== src/Memory/Maps/Calls.antt =====
-- In a store that the interface's calls reach no key stands twice in a collection.
use text.Mathlib.Text.{◌==◌}
use timongo.Prelude.{String, ℕ, Bool, true, false, [], if◌then◌else◌, every_true}
use timongo.Prelude.Text.{◌+++◌}
use timongo.Prelude.Dict.{Dict, IsMap}
use timongo.Value.{Doc}
use timongo.Go.{Go}
use timongo.Backend.Calls.{StoreCall, perform}
use timongo.Memory.Store.{Store, namespace, documents, has_prefix}
use timongo.Memory.Store.Laws.{
  documents-create_collection, documents-drop_collection, drop_database-lem,
}
use timongo.Memory.Insert.{validator_of}
use timongo.Memory.Insert.Laws.{documents-insert_many}
use timongo.Memory.Update.{Instant, no_updates}
use timongo.Memory.Keys.Documents.{
  documents-delete_many, documents-update_many, documents-create_indexes,
}
use timongo.Memory.Maps.{
  insert_docs-IsMap, delete_models-IsMap, update_models-keeps, run_update-IsMap,
}
use timongo.Memory.Served.{MemoryState, memory_store}

module _ {F : Type 0} ⦃go : Go F⦄ where
  abbrev pub AllMaps : Store F → Type 0
  AllMaps s = (ns : String) → IsMap (documents ns s)

  either : (test : Bool) (c c' : Dict (Doc F)) → IsMap c → IsMap c' → IsMap (if test then c else c')
  either true c c' h h' = h
  either false c c' h h' = h'

  pub perform-AllMaps :
      (clock : ℕ → ℕ → Instant) (call : StoreCall F) (s : MemoryState F)
      → AllMaps s.0
      → AllMaps (perform (memory_store clock) call s).0
  perform-AllMaps clock (StoreCall.create_collection db coll v) (s, i) h =
      λ ns. rw (documents-create_collection db coll ns v s) (h ns)
  perform-AllMaps clock (StoreCall.drop_collection db coll) (s, i) h = λ ns.
      rw (documents-drop_collection db coll ns s)
        (either (namespace db coll == ns) [] (documents ns s) tt (h ns))
  perform-AllMaps clock (StoreCall.insert_many db coll ds) (s, i) h = λ ns.
      rw (documents-insert_many db coll ds s ns) (
        either (namespace db coll == ns) _ (documents ns s)
          (insert_docs-IsMap (validator_of (namespace db coll) s) ds _ (h (namespace db coll)))
          (h ns))
  perform-AllMaps clock (StoreCall.update_many db coll models) (s, i) h = λ ns.
      rw (documents-update_many db coll s (clock i) models ns) (
        either (namespace db coll == ns) _ (documents ns s)
          (update_models-keeps (λ _. true) IsMap (λ now m c r _. run_update-IsMap now m c r)
            (clock i) 0 models (documents (namespace db coll) s) no_updates (every_true models)
            (h (namespace db coll)))
          (h ns))
  perform-AllMaps clock (StoreCall.delete_many db coll models) (s, i) h = λ ns.
      rw (documents-delete_many db coll s models ns) (
        either (namespace db coll == ns) _ (documents ns s)
          (delete_models-IsMap models (documents (namespace db coll) s) (h (namespace db coll)))
          (h ns))
  perform-AllMaps clock (StoreCall.create_indexes db coll models) (s, i) h =
      λ ns. rw (documents-create_indexes db coll s models ns) (h ns)
  perform-AllMaps clock (StoreCall.drop_database db) (s, i) h = λ ns.
      rw (drop_database-lem db ns s)
        (either (has_prefix (db +++ ".") ns) [] (documents ns s) tt (h ns))
  perform-AllMaps clock (StoreCall.list_collections db wanted) s h = h
  perform-AllMaps clock (StoreCall.find db coll req) s h = h
  perform-AllMaps clock (StoreCall.count db coll query) s h = h
  perform-AllMaps clock (StoreCall.distinct db coll k query) s h = h
  perform-AllMaps clock (StoreCall.aggregate db coll pipeline) s h = h
  perform-AllMaps clock (StoreCall.list_indexes db coll) s h = h
