-- ===== src/Memory/Effects.antt =====
-- What a caller of the interface `Store` relies on, as a contract on a map from namespaces and keys
-- to documents. It names no representation, no loop and no order of the entries.
use text.Mathlib.Text.{◌==◌}
use timongo.Prelude.{
  [], ◌∷◌, Result, ok, ◌⊎◌, String, Bool, true, false, List, ◌++◌, Option, none, some,
  if◌then◌else◌, ◌≡◌, any, all, not, ◌||◌, ◌&&◌,
}
use timongo.Prelude.Int.{pos, eqb_ℤ}
use timongo.Prelude.Text.{◌+++◌}
use timongo.Prelude.Dict.{or_else}
use timongo.Value.{Doc, Value}
use timongo.Go.{Go}
use timongo.Mql.Match.{matches}
use timongo.Backend.{DeleteModel, UpdateModel}
use timongo.Backend.Calls.{StoreCall}
use timongo.Memory.Update.{leaves_arrays}
use timongo.Memory.Store.{namespace, has_prefix}
use timongo.Memory.Insert.Laws.{keyed, is_ok}
use timongo.Mql.Schema.{validate_json_schema}
use timongo.Bsonutil.{document_id_key}

-- The documents by namespace and key.
abbrev pub Documents : Type 0 → Type 0
Documents F = String → String → Option (Doc F)

module _ {F : Type 0} ⦃go : Go F⦄ where
  -- Whether there is a document that matches.
  abbrev pub found_by : Doc F → Option (Doc F) → Bool
  found_by f none = false
  found_by f (some d) = matches d f

  abbrev pub is_there : Option (Doc F) → Bool
  is_there none = false
  is_there (some _) = true

  -- The delete takes out every document that it matches.
  abbrev pub takes : Option (Doc F) → DeleteModel F → Bool
  takes before m = not (eqb_ℤ m.limit (pos 1)) && found_by m.filter before

  -- A document stays, or goes if one of the models matches it; if one that is not for one document
  -- alone matches it, it goes.
  abbrev pub Deletes : List (DeleteModel F) → Option (Doc F) → Option (Doc F) → Type 0
  Deletes models before after =
      ((after ≡ before)
        ⊎ ((after ≡ none) × (any (λ (m : DeleteModel F). found_by m.filter before) models ≡ true)))
      × (any (takes before) models ≡ true → after ≡ none)

  -- No document is lost, and one that no model matches stays as it is, where none is an
  -- upsert or writes into arrays.
  abbrev pub Updates : List (UpdateModel F) → Option (Doc F) → Option (Doc F) → Type 0
  Updates models before after =
      (is_there before ≡ true → is_there after ≡ true)
      × (all (λ (m : UpdateModel F). not (m.upsert || found_by m.filter before) && leaves_arrays m)
              models
            ≡ true
          → after ≡ before)

  abbrev is_free : (String → Option (Doc F)) → Result String → Bool
  is_free at (ok key) = not (is_there (at key))
  is_free at _ = false

  -- A document may be stored next to those that are there: it fits the validator, it has a key, and
  -- the key is free.
  abbrev pub may_store : Value F → (String → Option (Doc F)) → Doc F → Bool
  may_store validator at d =
      is_ok (validate_json_schema validator d) && is_free at (document_id_key d)

  -- There is no document left, or the first one may not be stored.
  abbrev pub Stopped : Value F → (String → Option (Doc F)) → List (Doc F) → Type 0
  Stopped validator at [] = Unit {0}
  Stopped validator at (d ∷ _) = may_store validator at d ≡ false

  -- In one namespace the change `C`, and in the others none.
  abbrev pub Within :
      String
      → (String → Option (Doc F) → Option (Doc F) → Type 0)
      → Documents F
      → Documents F
      → Type 0
  Within ns C v w =
      ((key : String) → C key (v ns key) (w ns key))
      × ((ns' key : String) → (ns == ns') ≡ false → w ns' key ≡ v ns' key)

  -- What a call does to the documents, by the validator of each namespace.
  abbrev pub Effect : (String → Value F) → StoreCall F → Documents F → Documents F → Type 0
  Effect validators (StoreCall.drop_collection db coll) v w =
      Within (namespace db coll) (λ key before after. after ≡ none) v w
  Effect validators (StoreCall.drop_database db) v w =
      (ns key : String) → w ns key ≡ (if has_prefix (db +++ ".") ns then none else v ns key)
  Effect validators (StoreCall.insert_many db coll ds) v w =
      (front : List (Doc F)) × (rest : List (Doc F)) × (ds ≡ front ++ rest)
      × Within (namespace db coll) (λ key before after. after ≡ or_else before (keyed key front)) v
          w
      × Stopped (validators (namespace db coll)) (w (namespace db coll)) rest
  Effect validators (StoreCall.delete_many db coll models) v w =
      Within (namespace db coll) (λ key. Deletes models) v w
  Effect validators (StoreCall.update_many db coll models) v w =
      Within (namespace db coll) (λ key. Updates models) v w
  Effect validators _ v w = (ns key : String) → w ns key ≡ v ns key
