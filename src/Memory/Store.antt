-- ===== src/Memory/Store.antt =====
-- internal/backend/memory/memory.go: the state, `NewStore`, `CreateCollection`,
-- `ListCollections`, `DropCollection`, `DropDatabase`, and the helpers `collection`,
-- `ensureDefaultIndex` and `namespace`.
pub mod Laws
use text.Mathlib.Text.{◌==◌}
use timongo.Prelude.{
  String, Bool, true, false, List, [], ◌∷◌, Option, none, some, if◌then◌else◌, is_empty, filter_map,
}
use timongo.Prelude.Int.{pos}
use timongo.Prelude.Text.{◌+++◌, strip_prefix}
use timongo.Prelude.Dict.{Dict, lookup, insert, remove, has}
use timongo.Value.{Value, str, int32, Doc, of_doc}
use timongo.Backend.{CollectionInfo}

pub record Store (F : Type 0) : Type 0 where
  pub collections : Dict (Dict (Doc F))
  pub options : Dict (Doc F)
  pub indexes : Dict (List (Doc F))

unfoldable pub namespace : String → String → String
namespace db collection = db +++ "." +++ collection

abbrev pub has_prefix : String → String → Bool
has_prefix prefix ns = elim (strip_prefix prefix ns) [ none ↦ false | some _ ↦ true ]

abbrev pub or_empty {ℓ} : {A : Type ℓ} → Option (List A) → List A
or_empty none = []
or_empty (some xs) = xs

module _ {F : Type 0} where
  unfoldable pub new_store : Store F
  new_store = record { collections = []; options = []; indexes = [] }

  abbrev pub default_index : Doc F
  default_index = ("name", str "_id_") ∷ ("key", of_doc (("_id", int32 (pos 1)) ∷ [])) ∷ []

  unfoldable pub ensure_default_index : String → Store F → Store F
  ensure_default_index ns s =
      if is_empty (or_empty (lookup ns s.indexes))
      then record s { indexes = insert ns (default_index ∷ []) s.indexes }
      else s

  -- `if s.collections[ns] == nil { s.collections[ns] = make(...) }`
  unfoldable pub ensure_collection : String → Store F → Store F
  ensure_collection ns s =
      if has ns s.collections then s else record s { collections = insert ns [] s.collections }

  -- `s.collection(db, collection)`: the store after it, and the collection.
  unfoldable pub open_collection : String → Store F → Store F
  unfolding ensure_collection ensure_default_index
  open_collection ns s = ensure_default_index ns (ensure_collection ns s)

  abbrev pub documents : String → Store F → Dict (Doc F)
  documents ns s = or_empty (lookup ns s.collections)

  unfoldable pub create_collection : String → String → Doc F → Store F → Store F
  unfolding ensure_collection ensure_default_index
  create_collection db collection validator s =
      let ns = namespace db collection in
      let s' = ensure_collection ns s in
      let options = if is_empty validator then [] else ("validator", of_doc validator) ∷ [] in
      ensure_default_index ns (record s' { options = insert ns options s'.options })

  passes_name : Option (Value F) → String → Bool
  passes_name (some (str wanted)) name = wanted == name
  passes_name _ name = true

  info : Option String → Doc F → Store F → String → Option (CollectionInfo F)
  unfolding passes_name
  info none filter s ns = none
  info (some name) filter s ns =
      if passes_name (lookup "name" filter) name
      then some (record { name = name; options = or_empty (lookup ns s.options) })
      else none

  unfoldable pub list_collections : String → Doc F → Store F → List (CollectionInfo F)
  unfolding info
  list_collections db filter s =
      filter_map (λ e. info (strip_prefix (db +++ ".") e.0) filter s e.0) s.collections

  unfoldable pub drop_namespace : String → Store F → Store F
  drop_namespace ns s = record {
    collections = remove ns s.collections;
    options = remove ns s.options;
    indexes = remove ns s.indexes;
  }

  unfoldable pub drop_collection : String → String → Store F → Store F
  unfolding drop_namespace
  drop_collection db collection s = drop_namespace (namespace db collection) s

  -- The loop over the collections that were there at its start.
  unfoldable pub drop_matching : String → Dict (Dict (Doc F)) → Store F → Store F
  drop_matching prefix [] s = s
  drop_matching prefix ((ns, _) ∷ rest) s =
      drop_matching prefix rest (if has_prefix prefix ns then drop_namespace ns s else s)

  unfoldable pub drop_database : String → Store F → Store F
  unfolding drop_matching drop_namespace
  drop_database db s = drop_matching (db +++ ".") s.collections s
