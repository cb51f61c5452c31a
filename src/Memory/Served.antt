-- ===== src/Memory/Served.antt =====
-- internal/backend/memory/memory.go: the store as an implementation of the interface `Store` of
-- internal/backend/backend.go.
--
-- The state beside the store is the number of updates so far: the update with the number `i` reads
-- the times `clock i`.
use timongo.Prelude.{String, ℕ, suc, List, Result, ok}
use timongo.Prelude.Calls.{Call}
use timongo.Go.{Go}
use timongo.Backend.{BackendStore, UpdateModel, UpdateResult}
use timongo.Memory.Store.{
  Store, create_collection, list_collections, drop_collection, drop_database,
}
use timongo.Memory.Insert.{insert_many}
use timongo.Memory.Read.{find, count, distinct, aggregate}
use timongo.Memory.Update.{Instant, update_many}
use timongo.Memory.Delete.{delete_many}
use timongo.Memory.Indexes.{create_indexes, list_indexes}

abbrev pub MemoryState : Type 0 → Type 0
MemoryState F = Store F × ℕ

module _ {F : Type 0} where
  -- An operation that changes the store, one that reads it, and one that writes and cannot fail.
  abbrev write : {A : Type 0} → (Store F → Store F × Result A) → Call (MemoryState F) A
  write f (s, i) = let (s', r) = f s in ((s', i), r)

  abbrev write_ok : {A : Type 0} → (Store F → Store F × A) → Call (MemoryState F) A
  write_ok f (s, i) = let (s', a) = f s in ((s', i), ok a)

  abbrev write_only : (Store F → Store F) → Call (MemoryState F) (Unit {0})
  write_only f (s, i) = ((f s, i), ok tt)

  abbrev read : {A : Type 0} → (Store F → Result A) → Call (MemoryState F) A
  read f (s, i) = ((s, i), f s)

module _ {F : Type 0} ⦃go : Go F⦄ where
  abbrev update_now :
      (ℕ → ℕ → Instant)
      → String
      → String
      → List (UpdateModel F)
      → Call (MemoryState F) (UpdateResult F)
  update_now clock db coll models (s, i) =
      let (s', r) = update_many (clock i) db coll models s in ((s', suc i), r)

  abbrev pub memory_store : (ℕ → ℕ → Instant) → BackendStore F (MemoryState F)
  memory_store clock = record {
    create_collection = λ db coll validator. write_only (create_collection db coll validator);
    list_collections = λ db wanted. read (λ s. ok (list_collections db wanted s));
    drop_collection = λ db coll. write_only (drop_collection db coll);
    insert_many = λ db coll ds. write (insert_many db coll ds);
    find = λ db coll req. read (λ s. ok (find db coll req s));
    count = λ db coll query. read (λ s. ok (count db coll query s));
    distinct = λ db coll key query. read (distinct db coll key query);
    update_many = update_now clock;
    delete_many = λ db coll models. write_ok (delete_many db coll models);
    aggregate = λ db coll pipeline. read (aggregate db coll pipeline);
    create_indexes = λ db coll models. write_ok (create_indexes db coll models);
    list_indexes = λ db coll. read (λ s. ok (list_indexes db coll s));
    drop_database = λ db. write_only (drop_database db);
  }
