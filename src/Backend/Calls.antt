-- ===== src/Backend/Calls.antt =====
-- internal/backend/backend.go: the calls of the interface `Store` as values.
use timongo.Prelude.{String, List, [], ◌∷◌}
use timongo.Value.{Doc, Value}
use timongo.Backend.{BackendStore, FindRequest, UpdateModel, DeleteModel, IndexModel}

-- One call of the interface, with its arguments.
pub data StoreCall (F : Type 0) : Type 0 where
  create_collection : String → String → Doc F → StoreCall F
  list_collections : String → Doc F → StoreCall F
  drop_collection : String → String → StoreCall F
  insert_many : String → String → List (Doc F) → StoreCall F
  find : String → String → FindRequest F → StoreCall F
  count : String → String → Doc F → StoreCall F
  distinct : String → String → String → Doc F → StoreCall F
  update_many : String → String → List (UpdateModel F) → StoreCall F
  delete_many : String → String → List (DeleteModel F) → StoreCall F
  aggregate : String → String → List (Value F) → StoreCall F
  create_indexes : String → String → List (IndexModel F) → StoreCall F
  list_indexes : String → String → StoreCall F
  drop_database : String → StoreCall F

module _ {F S : Type 0} (store : BackendStore F S) where
  -- The state after a call.
  abbrev pub perform : StoreCall F → S → S
  perform (StoreCall.create_collection db coll v) s = (store.create_collection db coll v s).0
  perform (StoreCall.list_collections db f) s = (store.list_collections db f s).0
  perform (StoreCall.drop_collection db coll) s = (store.drop_collection db coll s).0
  perform (StoreCall.insert_many db coll ds) s = (store.insert_many db coll ds s).0
  perform (StoreCall.find db coll req) s = (store.find db coll req s).0
  perform (StoreCall.count db coll f) s = (store.count db coll f s).0
  perform (StoreCall.distinct db coll key f) s = (store.distinct db coll key f s).0
  perform (StoreCall.update_many db coll ms) s = (store.update_many db coll ms s).0
  perform (StoreCall.delete_many db coll ms) s = (store.delete_many db coll ms s).0
  perform (StoreCall.aggregate db coll p) s = (store.aggregate db coll p s).0
  perform (StoreCall.create_indexes db coll ms) s = (store.create_indexes db coll ms s).0
  perform (StoreCall.list_indexes db coll) s = (store.list_indexes db coll s).0
  perform (StoreCall.drop_database db) s = (store.drop_database db s).0

  abbrev pub perform_all : List (StoreCall F) → S → S
  perform_all [] s = s
  perform_all (c ∷ cs) s = perform_all cs (perform c s)
