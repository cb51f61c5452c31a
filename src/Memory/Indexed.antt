-- ===== src/Memory/Indexed.antt =====
-- internal/backend/memory/memory.go: which namespaces have indexes, and `_id_` among them.
use timongo.Prelude.{
  arith, String, ℕ, Bool, true, false, List, [], ◌∷◌, Option, none, some, if◌then◌else◌, ◌≡◌, refl,
  ◌∙◌, eq_iff,
}
use timongo.Prelude.Text.{◌+++◌}
use timongo.Prelude.Dict.{Dict, lookup, insert, has, lookup-insert, lookup-remove}
use timongo.Value.{Doc}
use timongo.Go.{Go}
use timongo.Backend.{DeleteModel, UpdateModel, IndexModel}
use timongo.Memory.Store.{
  Store, namespace, or_empty, default_index, open_collection, create_collection, drop_namespace,
  drop_collection, drop_matching, drop_database, has_prefix,
}
use timongo.Memory.Insert.{insert_many}
use timongo.Memory.Delete.{delete_many, delete_from}
use timongo.Memory.Update.{Instant, update_many}
use timongo.Memory.Indexes.{create_indexes, add_indexes}
use timongo.Memory.Served.{MemoryState, memory_store}
use timongo.Backend.Calls.{StoreCall, perform}

module _ {F : Type 0} where
  abbrev pub first : List (Doc F) → Option (Doc F)
  first [] = none
  first (d ∷ _) = some d

  -- The first index of a collection that is there is `_id_`, and a namespace without a collection
  -- has no index.
  abbrev pub IsIndexedAt : String → Store F → Type 0
  IsIndexedAt ns s =
      first (or_empty (lookup ns s.indexes))
      ≡ (if has ns s.collections then some default_index else none)

  abbrev pub IsIndexed : Store F → Type 0
  IsIndexed s = (ns : String) → IsIndexedAt ns s

  open_collection-IsIndexed :
      (ns : String) (s : Store F) → IsIndexed s → IsIndexed (open_collection ns s)
  unfolding open_collection
  open_collection-IsIndexed ns s h ns' = ground (
    arith,
    h ns,
    h ns',
    lookup-insert ns ns' [] s.collections,
    lookup-insert ns ns' (default_index ∷ []) s.indexes,
    eq_iff ns ns',
  )

  create_collection-IsIndexed :
      (db collection : String) (validator : Doc F) (s : Store F)
      → IsIndexed s
      → IsIndexed (create_collection db collection validator s)
  unfolding create_collection
  create_collection-IsIndexed db collection validator s h ns' =
      let ns = namespace db collection in
      ground (
        arith,
        h ns,
        h ns',
        lookup-insert ns ns' [] s.collections,
        lookup-insert ns ns' (default_index ∷ []) s.indexes,
        eq_iff ns ns',
      )

  drop_namespace-IsIndexed :
      (ns : String) (s : Store F) → IsIndexed s → IsIndexed (drop_namespace ns s)
  unfolding drop_namespace
  drop_namespace-IsIndexed ns s h ns' =
      ground (arith, h ns', lookup-remove ns ns' s.collections, lookup-remove ns ns' s.indexes)

  drop_matching-IsIndexed :
      (prefix : String) (rest : Dict (Dict (Doc F))) (s : Store F)
      → IsIndexed s
      → IsIndexed (drop_matching prefix rest s)
  unfolding drop_matching
  drop_matching-IsIndexed prefix [] s h = h
  drop_matching-IsIndexed prefix ((ns, c) ∷ rest) s h =
      drop_matching-IsIndexed prefix rest _ (dropped (has_prefix prefix ns))
    where
      dropped : (test : Bool) → IsIndexed (if test then drop_namespace ns s else s)
      dropped true = drop_namespace-IsIndexed ns s h
      dropped false = h

  drop_collection-IsIndexed :
      (db collection : String) (s : Store F)
      → IsIndexed s
      → IsIndexed (drop_collection db collection s)
  unfolding drop_collection
  drop_collection-IsIndexed db collection s h =
      drop_namespace-IsIndexed (namespace db collection) s h

  drop_database-IsIndexed :
      (db : String) (s : Store F) → IsIndexed s → IsIndexed (drop_database db s)
  unfolding drop_database
  drop_database-IsIndexed db s h = drop_matching-IsIndexed (db +++ ".") s.collections s h

  -- To write the documents of a collection that is there changes no index.
  written-IsIndexed :
      (ns : String) (coll : Dict (Doc F)) (s : Store F)
      → has ns s.collections ≡ true
      → IsIndexed s
      → IsIndexed (record s { collections = insert ns coll s.collections })
  written-IsIndexed ns coll s there h ns' =
      ground (arith, h ns', lookup-insert ns ns' coll s.collections, eq_iff ns ns')

  has-open_collection :
      (ns : String) (s : Store F) → has ns (open_collection ns s).collections ≡ true
  unfolding open_collection
  has-open_collection ns s = ground (arith, lookup-insert ns ns [] s.collections, eq_iff ns ns)

module _ {F : Type 0} ⦃go : Go F⦄ where
  insert_many-IsIndexed :
      (db collection : String) (ds : List (Doc F)) (s : Store F)
      → IsIndexed s
      → IsIndexed (insert_many db collection ds s).0
  unfolding insert_many
  insert_many-IsIndexed db collection ds s h =
      let ns = namespace db collection in
      written-IsIndexed ns _ (open_collection ns s) (has-open_collection ns s)
        (open_collection-IsIndexed ns s h)

  update_many-IsIndexed :
      (clock : ℕ → Instant) (db collection : String) (models : List (UpdateModel F)) (s : Store F)
      → IsIndexed s
      → IsIndexed (update_many clock db collection models s).0
  unfolding update_many
  update_many-IsIndexed clock db collection models s h =
      let ns = namespace db collection in
      written-IsIndexed ns _ (open_collection ns s) (has-open_collection ns s)
        (open_collection-IsIndexed ns s h)

  delete_many-IsIndexed :
      (db collection : String) (models : List (DeleteModel F)) (s : Store F)
      → IsIndexed s
      → IsIndexed (delete_many db collection models s).0
  unfolding delete_many
  delete_many-IsIndexed db collection models s h =
      from_found (lookup (namespace db collection) s.collections) refl
    where
      from_found :
          (o : Option (Dict (Doc F)))
          → lookup (namespace db collection) s.collections ≡ o
          → IsIndexed (delete_from (namespace db collection) models s o).0
      from_found none e = h
      from_found (some coll) e =
          written-IsIndexed (namespace db collection) _ s (rw (has, e) refl) h

  first-add_indexes :
      (models : List (IndexModel F)) (indexes : List (Doc F)) (d : Doc F)
      → first indexes ≡ some d
      → first (add_indexes models indexes).0 ≡ some d
  unfolding add_indexes
  first-add_indexes [] indexes d h = h
  first-add_indexes (model ∷ models) (e ∷ indexes) d h = first-add_indexes models _ d h
  first-add_indexes (model ∷ models) [] d h = ground arith

  listed-IsIndexed :
      (ns : String) (l : List (Doc F)) (s : Store F)
      → first l ≡ some default_index
      → has ns s.collections ≡ true
      → IsIndexed s
      → IsIndexed (record s { indexes = insert ns l s.indexes })
  listed-IsIndexed ns l s e there h ns' =
      ground (arith, h ns', lookup-insert ns ns' l s.indexes, eq_iff ns ns')

  create_indexes-IsIndexed :
      (db collection : String) (models : List (IndexModel F)) (s : Store F)
      → IsIndexed s
      → IsIndexed (create_indexes db collection models s).0
  unfolding create_indexes open_collection
  create_indexes-IsIndexed db collection models s h =
      let ns = namespace db collection in
      let s' = open_collection ns s in
      let there = has-open_collection ns s in
      let opened = open_collection-IsIndexed ns s h in
      listed-IsIndexed ns _ s'
        (first-add_indexes models (or_empty (lookup ns s'.indexes)) default_index
          (opened ns ∙ rw there))
        there opened

  -- Every call of the interface keeps this, whatever it returns.
  pub perform-IsIndexed :
      (clock : ℕ → ℕ → Instant) (call : StoreCall F) (s : MemoryState F)
      → IsIndexed s.0
      → IsIndexed (perform (memory_store clock) call s).0
  perform-IsIndexed clock (StoreCall.create_collection db coll v) (s, i) h =
      create_collection-IsIndexed db coll v s h
  perform-IsIndexed clock (StoreCall.drop_collection db coll) (s, i) h =
      drop_collection-IsIndexed db coll s h
  perform-IsIndexed clock (StoreCall.insert_many db coll ds) (s, i) h =
      insert_many-IsIndexed db coll ds s h
  perform-IsIndexed clock (StoreCall.update_many db coll models) (s, i) h =
      update_many-IsIndexed (clock i) db coll models s h
  perform-IsIndexed clock (StoreCall.delete_many db coll models) (s, i) h =
      delete_many-IsIndexed db coll models s h
  perform-IsIndexed clock (StoreCall.create_indexes db coll models) (s, i) h =
      create_indexes-IsIndexed db coll models s h
  perform-IsIndexed clock (StoreCall.drop_database db) (s, i) h = drop_database-IsIndexed db s h
  perform-IsIndexed clock (StoreCall.list_collections db wanted) s h = h
  perform-IsIndexed clock (StoreCall.find db coll req) s h = h
  perform-IsIndexed clock (StoreCall.count db coll query) s h = h
  perform-IsIndexed clock (StoreCall.distinct db coll key query) s h = h
  perform-IsIndexed clock (StoreCall.aggregate db coll pipeline) s h = h
  perform-IsIndexed clock (StoreCall.list_indexes db coll) s h = h
