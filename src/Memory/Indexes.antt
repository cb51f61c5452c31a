-- ===== src/Memory/Indexes.antt =====
-- internal/backend/memory/memory.go: `CreateIndexes`, `ListIndexes` and `indexName`.
use text.Mathlib.Text.{◌==◌}
use timongo.Prelude.{String, List, [], ◌∷◌, ◌++◌, if◌then◌else◌}
use timongo.Prelude.Text.{◌+++◌}
use timongo.Prelude.Dict.{lookup, insert}
use timongo.Value.{str, Doc, of_doc}
use timongo.Go.{Go}
use timongo.Mql.Compare.{sprint}
use timongo.Mql.Update.{insert_all}
use timongo.Backend.{IndexModel}
use timongo.Memory.Store.{Store, namespace, or_empty, ensure_collection, ensure_default_index}

module _ {F : Type 0} ⦃go : Go F⦄ where
  unfoldable pub index_name : Doc F → String
  index_name [] = "unnamed_1"
  index_name ((name, direction) ∷ _) = name +++ "_" +++ sprint direction

  abbrev pub chosen_name : IndexModel F → String
  chosen_name idx = if idx.name == "" then index_name idx.key else idx.name

  abbrev pub index_doc : IndexModel F → Doc F
  index_doc idx =
      insert_all idx.opts (("name", str (chosen_name idx)) ∷ ("key", of_doc idx.key) ∷ [])

  -- The loop: the indexes of the namespace after it, and the names.
  unfoldable pub add_indexes : List (IndexModel F) → List (Doc F) → List (Doc F) × List String
  unfolding index_name insert_all
  add_indexes [] indexes = (indexes, [])
  add_indexes (idx ∷ rest) indexes =
      let (all_indexes, names) = add_indexes rest (indexes ++ index_doc idx ∷ []) in
      (all_indexes, chosen_name idx ∷ names)

  unfoldable pub create_indexes :
      String → String → List (IndexModel F) → Store F → Store F × List String
  unfolding add_indexes ensure_collection ensure_default_index
  create_indexes db collection models s =
      let ns = namespace db collection in
      let s' = ensure_default_index ns (ensure_collection ns s) in
      let (indexes, names) = add_indexes models (or_empty (lookup ns s'.indexes)) in
      (record s' { indexes = insert ns indexes s'.indexes }, names)

module _ {F : Type 0} where
  unfoldable pub list_indexes : String → String → Store F → List (Doc F)
  list_indexes db collection s = or_empty (lookup (namespace db collection) s.indexes)
