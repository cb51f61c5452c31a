-- ===== src/Memory/Keys/Documents.antt =====
-- How each operation of the memory store changes the documents of a namespace.
use timongo.Memory.Update.{no_updates, update_many, Instant, update_models}
use timongo.Memory.Delete.{delete_many, delete_from, delete_models}
use timongo.Memory.Store.{Store, namespace, documents, or_empty}
use timongo.Memory.Store.Laws.{documents-open_collection}
use timongo.Memory.Indexes.{create_indexes}
use timongo.Backend.{IndexModel, DeleteModel, UpdateModel}
use timongo.Prelude.{
  Option, some, none, ℕ, String, List, [], ◌≡◌, refl, arith, if◌then◌else◌, eq_iff,
}
use timongo.Prelude.Dict.{lookup-insert, Dict, lookup}
use text.Mathlib.Text.{◌==◌}
use timongo.Value.{Doc}
use timongo.Go.{Go}
use timongo.Memory.Keys.{delete_models-empty}

-- How each operation changes the documents of a namespace.
module _ {F : Type 0} ⦃go : Go F⦄ (db collection : String) (s : Store F) where
  abbrev pub ns : String
  ns = namespace db collection

  documents-delete_from :
      (models : List (DeleteModel F)) (o : Option (Dict (Doc F))) (ns' : String)
      → lookup ns s.collections ≡ o
      → documents ns' (delete_from ns models s o).0
        ≡ (if ns == ns' then (delete_models models (or_empty o)).0 else documents ns' s)
  unfolding delete_from
  documents-delete_from models none ns' e =
      rw (delete_models-empty models) (ground (arith, eq_iff ns ns'))
  documents-delete_from models (some coll) ns' e = rw (lookup-insert ns ns') (ground arith)

  pub documents-delete_many :
      (models : List (DeleteModel F)) (ns' : String)
      → documents ns' (delete_many db collection models s).0
        ≡ (if ns == ns' then (delete_models models (documents ns s)).0 else documents ns' s)
  unfolding delete_many
  documents-delete_many models ns' = documents-delete_from models (lookup ns s.collections) ns' refl

  pub documents-update_many :
      (clock : ℕ → Instant) (models : List (UpdateModel F)) (ns' : String)
      → documents ns' (update_many clock db collection models s).0 ≡ (
          if ns == ns'
          then (update_models clock 0 models (documents ns s) no_updates).0
          else documents ns' s)
  unfolding update_many
  documents-update_many clock models ns' =
      rw (lookup-insert ns ns', documents-open_collection ns ns s)
        (ground (arith, documents-open_collection ns ns' s))

  pub documents-create_indexes :
      (models : List (IndexModel F)) (ns' : String)
      → documents ns' (create_indexes db collection models s).0 ≡ documents ns' s
  unfolding create_indexes
  documents-create_indexes models ns' =
      ground (arith, lookup-insert ns ns' [] s.collections, eq_iff ns ns')
