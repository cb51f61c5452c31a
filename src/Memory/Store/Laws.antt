-- ===== src/Memory/Store/Laws.antt =====
-- Opening, creating and dropping collections.
use timongo.Memory.Store.{
  or_empty, create_collection, drop_collection, drop_matching, drop_database, has_prefix,
  drop_namespace, namespace, Store, documents, open_collection,
}
use timongo.Value.{Doc}
use text.Mathlib.Text.{◌==◌}
use timongo.Prelude.Dict.{Dict, has, lookup, lookup-remove, lookup-insert}
use timongo.Prelude.{
  eq_refl, refl, ◌∙◌, ◌∷◌, if◌then◌else◌, Bool, true, false, none, some, Option, ◌&&◌, List, eq_iff,
  String, [], ◌≡◌, arith,
}
use timongo.Prelude.Text.{◌+++◌}

missing_anyway {ℓ} :
    {A : Type ℓ} (test : Bool) (o : Option (List A))
    → (if test && (elim o [ none ↦ false | some _ ↦ true ]) then [] else or_empty o)
      ≡ (if test then [] else or_empty o)
missing_anyway test o = ground arith

module _ {F : Type 0} where
  -- Opening a collection changes no documents and no options.
  pub documents-open_collection :
      (ns ns' : String) (s : Store F) → documents ns' (open_collection ns s) ≡ documents ns' s
  unfolding open_collection
  documents-open_collection ns ns' s =
      ground (arith, lookup-insert ns ns' [] s.collections, eq_iff ns ns')

  pub options-open_collection :
      (ns : String) (s : Store F) → (open_collection ns s).options ≡ s.options
  unfolding open_collection
  options-open_collection ns s = ground arith

  pub documents-create_collection :
      (db collection ns' : String) (validator : Doc F) (s : Store F)
      → documents ns' (create_collection db collection validator s) ≡ documents ns' s
  unfolding create_collection
  documents-create_collection db collection ns' validator s = ground (
    arith,
    lookup-insert (namespace db collection) ns' [] s.collections,
    eq_iff (namespace db collection) ns',
  )

  documents-drop_namespace :
      (ns ns' : String) (s : Store F)
      → documents ns' (drop_namespace ns s) ≡ (if ns == ns' then [] else documents ns' s)
  unfolding drop_namespace
  documents-drop_namespace ns ns' s = ground (arith, lookup-remove ns ns' s.collections)

  -- After `DropCollection` the collection reads as empty, its validator and its indexes are gone,
  -- and no other collection has changed.
  pub drop_collection-lem :
      (db collection : String) (s : Store F)
      → let ns = namespace db collection in
        let s' = drop_collection db collection s in
        (lookup ns s'.collections ≡ none)
        × (lookup ns s'.options ≡ none)
        × (lookup ns s'.indexes ≡ none)
        × ((ns' : String) → documents ns' s' ≡ (if ns == ns' then [] else documents ns' s))
  unfolding drop_collection
  drop_collection-lem db collection s =
      let ns = namespace db collection in
      (
        rw (lookup-remove ns ns s.collections, eq_refl ns) refl,
        rw (lookup-remove ns ns s.options, eq_refl ns) refl,
        rw (lookup-remove ns ns s.indexes, eq_refl ns) refl,
        λ ns'. documents-drop_namespace ns ns' s,
      )

  pub documents-drop_collection :
      (db collection ns' : String) (s : Store F)
      → documents ns' (drop_collection db collection s)
        ≡ (if namespace db collection == ns' then [] else documents ns' s)
  unfolding drop_collection
  documents-drop_collection db collection ns' s =
      documents-drop_namespace (namespace db collection) ns' s

  documents-drop_matching :
      (prefix ns' : String) (rest : Dict (Dict (Doc F))) (s : Store F)
      → documents ns' (drop_matching prefix rest s)
        ≡ (if has_prefix prefix ns' && has ns' rest then [] else documents ns' s)
  unfolding drop_matching lookup
  documents-drop_matching prefix ns' [] s = ground arith
  documents-drop_matching prefix ns' ((ns, c) ∷ rest) s =
      documents-drop_matching prefix ns' rest
        (if has_prefix prefix ns then drop_namespace ns s else s)
      ∙ ground (arith, documents-drop_namespace ns ns' s, eq_iff ns ns')

  -- After `DropDatabase` the collections whose namespace begins with the database's name and a dot
  -- read as empty, and all others are as they were.
  pub drop_database-lem :
      (db ns' : String) (s : Store F)
      → documents ns' (drop_database db s)
        ≡ (if has_prefix (db +++ ".") ns' then [] else documents ns' s)
  unfolding drop_database
  drop_database-lem db ns' s =
      documents-drop_matching (db +++ ".") ns' s.collections s
      ∙ missing_anyway (has_prefix (db +++ ".") ns') (lookup ns' s.collections)
