-- ===== src/Memory/Reach.antt =====
-- The stores that the operations reach from an empty one, whatever they return, with updates that
-- spare `_id`.
use text.Mathlib.Text.{◌==◌}
use timongo.Prelude.{String, ℕ, Bool, true, false, List, [], if◌then◌else◌}
use timongo.Prelude.Text.{◌+++◌}
use timongo.Prelude.Dict.{Dict, lookup}
use timongo.Value.{Doc}
use timongo.Go.{Go}
use timongo.Backend.{DeleteModel, UpdateModel, IndexModel}
use timongo.Memory.Store.{
  Store, namespace, documents, new_store, create_collection, drop_collection, drop_database,
  has_prefix,
}
use timongo.Memory.Store.Laws.{
  documents-create_collection, documents-drop_collection, drop_database-lem,
}
use timongo.Memory.Insert.{insert_many, validator_of}
use timongo.Memory.Insert.Laws.{documents-insert_many}
use timongo.Memory.Delete.{delete_many}
use timongo.Memory.Update.{Instant, update_many, no_updates}
use timongo.Memory.Indexes.{create_indexes}
use timongo.Memory.Keys.{IsKeyed, AllKeyed, insert_docs-IsKeyed, delete_models-IsKeyed}
use timongo.Memory.Keys.Update.{AllSpareId, update_models-IsKeyed}
use timongo.Memory.Keys.Documents.{
  documents-delete_many, documents-update_many, documents-create_indexes,
}

module _ {F : Type 0} ⦃go : Go F⦄ where
  -- One call of an operation that changes the store, failing or not.
  pub data Step (s : Store F) : Store F → Type 0 where
    create :
        (db collection : String) (validator : Doc F)
        → Step s (create_collection db collection validator s)
    drop : (db collection : String) → Step s (drop_collection db collection s)
    drop_all : (db : String) → Step s (drop_database db s)
    add : (db collection : String) (ds : List (Doc F)) → Step s (insert_many db collection ds s).0
    delete :
        (db collection : String) (models : List (DeleteModel F))
        → Step s (delete_many db collection models s).0
    update :
        (clock : ℕ → Instant) (db collection : String) (models : List (UpdateModel F))
        → AllSpareId models
        → Step s (update_many clock db collection models s).0
    index :
        (db collection : String) (models : List (IndexModel F))
        → Step s (create_indexes db collection models s).0

  pub data Reach : Store F → Type 0 where
    start : Reach new_store
    next : {s t : Store F} → Reach s → Step s t → Reach t

  either :
      (test : Bool) (c c' : Dict (Doc F))
      → IsKeyed c
      → IsKeyed c'
      → IsKeyed (if test then c else c')
  either true c c' h h' = h
  either false c c' h h' = h'

  Step-AllKeyed : {s t : Store F} → Step s t → AllKeyed s → AllKeyed t
  Step-AllKeyed {s} (create db collection validator) h ns =
      rw (documents-create_collection db collection ns validator s) (h ns)
  Step-AllKeyed {s} (drop db collection) h ns =
      rw (documents-drop_collection db collection ns s)
        (either (namespace db collection == ns) [] (documents ns s) tt (h ns))
  Step-AllKeyed {s} (drop_all db) h ns =
      rw (drop_database-lem db ns s)
        (either (has_prefix (db +++ ".") ns) [] (documents ns s) tt (h ns))
  Step-AllKeyed {s} (add db collection ds) h ns = rw (documents-insert_many db collection ds s ns) (
      either (namespace db collection == ns) _ (documents ns s)
        (insert_docs-IsKeyed (validator_of (namespace db collection) s) ds
          (documents (namespace db collection) s) (h (namespace db collection)))
        (h ns))
  Step-AllKeyed {s} (delete db collection models) h ns =
      rw (documents-delete_many db collection s models ns) (
        either (namespace db collection == ns) _ (documents ns s)
          (delete_models-IsKeyed models (documents (namespace db collection) s)
            (h (namespace db collection)))
          (h ns))
  Step-AllKeyed {s} (update clock db collection models spares) h ns =
      rw (documents-update_many db collection s clock models ns) (
        either (namespace db collection == ns) _ (documents ns s)
          (update_models-IsKeyed clock 0 models (documents (namespace db collection) s) no_updates
            spares (h (namespace db collection)))
          (h ns))
  Step-AllKeyed {s} (index db collection models) h ns =
      rw (documents-create_indexes db collection s models ns) (h ns)

  -- In every store that is reached from the empty one by the operations, whether they succeed or
  -- fail, with updates that consist of operators and do not name `_id`, each document stands under
  -- the key of its own `_id`, and no key of a collection stands twice.
  pub Reach-AllKeyed : {s : Store F} → Reach s → AllKeyed s
  Reach-AllKeyed start ns = unfold new_store lookup in tt
  Reach-AllKeyed (next r step) ns = Step-AllKeyed step (Reach-AllKeyed r) ns
