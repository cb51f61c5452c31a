-- ===== src/Tidb/Served.antt =====
-- internal/backend/tidb/store.go: `NewStore`, `Close` and `Ready`, the store as an implementation of
-- the interface `Store` of internal/backend/backend.go, and internal/catalog/catalog.go.
--
-- As in Memory/Served, the state beside the connection's is the number of updates so far.
use timongo.Prelude.{ℕ, suc, Result, ok, err, panic}
use timongo.Prelude.Calls.{Call, ◌>>◌, lift}
use timongo.Go.{Go}
use timongo.Bsonutil.ExtJson.{ExtJson}
use timongo.Backend.{BackendStore}
use timongo.Memory.Update.{Instant}
use timongo.Catalog.{bootstrap}
use timongo.Tidb.Connection.{Connection}
use timongo.Tidb.Read.{asks, find_in_tidb, count_in_tidb, distinct_in_tidb, aggregate_in_tidb}
use timongo.Tidb.Catalog.{create_in_tidb, list_in_tidb, drop_in_tidb, drop_database_in_tidb}
use timongo.Tidb.Write.{insert_in_tidb, update_in_tidb, delete_in_tidb}
use timongo.Tidb.Indexes.{create_indexes_in_tidb, list_indexes_in_tidb}

abbrev pub TidbState : Type 0 → Type 0
TidbState C = C × ℕ

module _ {C : Type 0} where
  abbrev pub on_connection : {A : Type 0} → Call C A → Call (TidbState C) A
  on_connection call (c, i) = let (c', r) = call c in ((c', i), r)

  abbrev pub on_update : {A : Type 0} → (ℕ → Call C A) → Call (TidbState C) A
  on_update call (c, i) = let (c', r) = call i c in ((c', suc i), r)

module _ {F C : Type 0} ⦃go : Go F⦄ (conn : Connection F C) (json : ExtJson F)
    (clock : ℕ → ℕ → Instant) where
  abbrev pub tidb_store : BackendStore F (TidbState C)
  tidb_store = record {
    create_collection =
        λ db coll validator. on_connection (create_in_tidb conn json db coll validator);
    list_collections = λ db wanted. on_connection (list_in_tidb conn json db wanted);
    drop_collection = λ db coll. on_connection (drop_in_tidb conn json db coll);
    insert_many = λ db coll ds. on_connection (insert_in_tidb conn json db coll ds);
    find = λ db coll req. on_connection (find_in_tidb conn json db coll req);
    count = λ db coll query. on_connection (count_in_tidb conn json db coll query);
    distinct = λ db coll key query. on_connection (distinct_in_tidb conn json db coll key query);
    update_many =
        λ db coll models. on_update (λ i. update_in_tidb conn json (clock i) db coll models);
    delete_many = λ db coll models. on_connection (delete_in_tidb conn json db coll models);
    aggregate = λ db coll pipeline. on_connection (aggregate_in_tidb conn json db coll pipeline);
    create_indexes =
        λ db coll models. on_connection (create_indexes_in_tidb conn json db coll models);
    list_indexes = λ db coll. on_connection (list_indexes_in_tidb conn json db coll);
    drop_database = λ db. on_connection (drop_database_in_tidb conn json db);
  }

module _ {F C : Type 0} (conn : Connection F C) where
  -- `if err := ...; err != nil { _ = db.Close(); return nil, err }`
  abbrev pub closed_on_error : C × Result (Unit {0}) → C × Result (Unit {0})
  closed_on_error (c, ok u) = (c, ok u)
  closed_on_error (c, err e) = ((conn.close c).0, err e)
  closed_on_error (c, panic) = (c, panic)

  -- `NewStore(dsn)`, by what `sql.Open` returns.
  unfoldable pub new_tidb_store : Result (Unit {0}) → Call C (Unit {0})
  unfolding bootstrap
  new_tidb_store opened = do
    lift opened
    λ c. closed_on_error (asks conn.ping c)
    λ c. closed_on_error (bootstrap conn c)
