-- ===== src/Handler/Commands.antt =====
-- internal/handler/handler.go: the commands that ask the store.
use timongo.Prelude.{
  String, suc, Bool, true, false, List, [], ◌∷◌, if◌then◌else◌, map, is_empty, length, not, ◌||◌,
}
use timongo.Prelude.Calls.{Call, ◌>>=◌, ◌>>◌, lift, done}
use timongo.Prelude.Int.{pos}
use timongo.Prelude.Text.{◌+++◌}
use timongo.Value.{bool, str, int32, int64, Doc, of_doc, of_list, truthy}
use timongo.Go.{Go}
use timongo.Mql.Schema.{as_doc_or_nil, text_or_empty}
use timongo.Mql.Update.Operators.{get}
use timongo.Backend.{BackendStore, FindRequest, CollectionInfo}
use timongo.Handler.Arguments.{
  required_string, doc_field, pipeline_field, array_field, item_docs, update_model, delete_model,
  index_model, find_request, split_namespace, wrap_int32,
}
use timongo.Handler.Replies.{ok_reply, to_bson_array, cursor_reply}

module _ {F : Type 0} where
  -- The requests for the first document that matches, and for all of a collection, and parts of replies.
  abbrev pub first_match : Doc F → FindRequest F
  first_match query = record {
    filter = query;
    projection = [];
    sort = [];
    skip = pos 0;
    limit = pos 1;
  }

  abbrev pub all_documents : FindRequest F
  all_documents = record { filter = []; projection = []; sort = []; skip = pos 0; limit = pos 0 }

  abbrev pub value_or_nil : List (Doc F) → Doc F
  value_or_nil [] = []
  value_or_nil (d ∷ _) = d

  abbrev pub or_before : List (Doc F) → List (Doc F) → List (Doc F)
  or_before [] before = before
  or_before (d ∷ after) before = d ∷ after

  abbrev pub collection_doc : CollectionInfo F → Doc F
  collection_doc info =
      ("name", str info.name)
      ∷ ("type", str "collection")
      ∷ ("options", of_doc info.options)
      ∷ ("info", of_doc (("readOnly", bool false) ∷ []))
      ∷ []

module _ {F S : Type 0} ⦃go : Go F⦄ (store : BackendStore F S) where
  -- Reads.
  unfoldable pub find_command : Doc F → String → Call S (Doc F)
  find_command cmd coll = do
    db ← lift (required_string cmd "$db")
    req ← lift (find_request cmd)
    ds ← store.find db coll req
    done (cursor_reply (db +++ "." +++ coll) (to_bson_array ds))

  unfoldable pub count_command : Doc F → String → Call S (Doc F)
  count_command cmd coll = do
    db ← lift (required_string cmd "$db")
    query ← lift (doc_field cmd "query")
    n ← store.count db coll query
    done (ok_reply (("n", int64 (pos n)) ∷ []))

  unfoldable pub distinct_command : Doc F → String → Call S (Doc F)
  distinct_command cmd coll = do
    db ← lift (required_string cmd "$db")
    key ← lift (required_string cmd "key")
    query ← lift (doc_field cmd "query")
    values ← store.distinct db coll key query
    done (ok_reply (("values", of_list values) ∷ []))

  unfoldable pub aggregate_command : Doc F → String → Call S (Doc F)
  aggregate_command cmd coll = do
    db ← lift (required_string cmd "$db")
    pipeline ← lift (pipeline_field cmd)
    ds ← store.aggregate db coll pipeline
    done (cursor_reply (db +++ "." +++ coll) (to_bson_array ds))

  unfoldable pub list_indexes_command : Doc F → String → Call S (Doc F)
  list_indexes_command cmd coll = do
    db ← lift (required_string cmd "$db")
    indexes ← store.list_indexes db coll
    done (cursor_reply (db +++ "." +++ coll) (to_bson_array indexes))

  unfoldable pub list_collections_command : Doc F → Call S (Doc F)
  list_collections_command cmd = do
    db ← lift (required_string cmd "$db")
    wanted ← lift (doc_field cmd "filter")
    infos ← store.list_collections db wanted
    done (cursor_reply (db +++ ".$cmd.listCollections") (to_bson_array (map collection_doc infos)))

  -- Writes.
  unfoldable pub insert_command : Doc F → String → Call S (Doc F)
  insert_command cmd coll = do
    db ← lift (required_string cmd "$db")
    raw ← lift (array_field cmd "documents")
    ds ← lift (item_docs "document" raw)
    n ← store.insert_many db coll ds
    done (ok_reply (("n", int32 (wrap_int32 n)) ∷ []))

  unfoldable pub update_command : Doc F → String → Call S (Doc F)
  update_command cmd coll = do
    db ← lift (required_string cmd "$db")
    raw ← lift (array_field cmd "updates")
    ds ← lift (item_docs "update item" raw)
    r ← store.update_many db coll (map update_model ds)
    done (
        ok_reply (
          ("n", int64 (pos r.matched))
          ∷ ("nModified", int64 (pos r.modified))
          ∷ ("upserted", to_bson_array r.upserted)
          ∷ []))

  unfoldable pub delete_command : Doc F → String → Call S (Doc F)
  delete_command cmd coll = do
    db ← lift (required_string cmd "$db")
    raw ← lift (array_field cmd "deletes")
    ds ← lift (item_docs "delete item" raw)
    n ← store.delete_many db coll (map delete_model ds)
    done (ok_reply (("n", int64 (pos n)) ∷ []))

  unfoldable pub create_collection_command : Doc F → String → Call S (Doc F)
  create_collection_command cmd coll = do
    db ← lift (required_string cmd "$db")
    validator ← lift (doc_field cmd "validator")
    store.create_collection db coll validator
    done (ok_reply [])

  unfoldable pub drop_collection_command : Doc F → String → Call S (Doc F)
  drop_collection_command cmd coll = do
    db ← lift (required_string cmd "$db")
    store.drop_collection db coll
    done (ok_reply (("ns", str (db +++ "." +++ coll)) ∷ []))

  unfoldable pub drop_database_command : Doc F → Call S (Doc F)
  drop_database_command cmd = do
    db ← lift (required_string cmd "$db")
    store.drop_database db
    done (ok_reply (("dropped", str db) ∷ []))

  unfoldable pub create_indexes_command : Doc F → String → Call S (Doc F)
  create_indexes_command cmd coll = do
    db ← lift (required_string cmd "$db")
    raw ← lift (array_field cmd "indexes")
    ds ← lift (item_docs "index" raw)
    names ← store.create_indexes db coll (map index_model ds)
    done (
        ok_reply (
          ("createdCollectionAutomatically", bool true)
          ∷ ("numIndexesBefore", int32 (pos 1))
          ∷ ("numIndexesAfter", int32 (wrap_int32 (suc (length names))))
          ∷ []))

  -- `findAndModify`: a find of one document, and then a delete or an update by the same query.
  abbrev pub remove_found : String → String → Doc F → List (Doc F) → Call S (Unit {0})
  remove_found db coll query [] = done tt
  remove_found db coll query (d ∷ _) =
      store.delete_many db coll (record { filter = query; limit = pos 1 } ∷ []) >>= λ _. done tt

  abbrev pub remove_one : String → String → Doc F → List (Doc F) → Call S (Doc F)
  remove_one db coll query found = do
    remove_found db coll query found
    done (
        ok_reply (
          ("lastErrorObject", of_doc (("n", int32 (wrap_int32 (length found))) ∷ []))
          ∷ ("value", of_doc (value_or_nil found))
          ∷ []))

  abbrev pub update_found : String → String → Doc F → Doc F → Bool → Call S (Unit {0})
  update_found db coll query [] upsert = done tt
  update_found db coll query (e ∷ update) upsert =
      store.update_many db coll
        (record { filter = query; update = e ∷ update; multi = false; upsert = upsert } ∷ [])
      >>= λ _. done tt

  -- The document that the reply shows.
  abbrev pub shown : Bool → String → String → Doc F → List (Doc F) → Call S (List (Doc F))
  shown false db coll query found = done found
  shown true db coll query found = do
    after ← store.find db coll (first_match query)
    done (or_before after found)

  abbrev pub modify_one : Doc F → String → String → Doc F → List (Doc F) → Call S (Doc F)
  modify_one cmd db coll query found = do
    update_found db coll query (as_doc_or_nil (get "update" cmd)) (truthy (get "upsert" cmd))
    value ←
        shown (truthy (get "new" cmd) || truthy (get "returnNewDocument" cmd)) db coll query found
    done (
        ok_reply (
          (
            "lastErrorObject",
            of_doc (
                ("n", int32 (wrap_int32 (length found)))
                ∷ ("updatedExisting", bool (not (is_empty found)))
                ∷ []),
          )
          ∷ ("value", of_doc (value_or_nil value))
          ∷ []))

  unfoldable pub find_and_modify : Doc F → String → Call S (Doc F)
  find_and_modify cmd coll = do
    db ← lift (required_string cmd "$db")
    let query = as_doc_or_nil (get "query" cmd)
    found ← store.find db coll (first_match query)
    (if truthy (get "remove" cmd)
        then remove_one db coll query found
        else modify_one cmd db coll query found)

  -- `renameCollection`: the documents are copied, and the source is dropped.
  abbrev pub drop_target : Bool → String → String → Call S (Unit {0})
  drop_target true db coll = store.drop_collection db coll
  drop_target false db coll = done tt

  abbrev pub insert_copied : String → String → List (Doc F) → Call S (Unit {0})
  insert_copied db coll [] = done tt
  insert_copied db coll (d ∷ ds) = store.insert_many db coll (d ∷ ds) >>= λ _. done tt

  -- From the namespace `db.coll` to `to_db.to_coll`.
  abbrev pub move_collection : Bool → String × String → String × String → Call S (Doc F)
  move_collection replace (db, coll) (to_db, to_coll) = do
    ds ← store.find db coll all_documents
    drop_target replace to_db to_coll
    store.create_collection to_db to_coll []
    insert_copied to_db to_coll ds
    store.drop_collection db coll
    done (ok_reply [])

  unfoldable pub rename_collection : Doc F → String → Call S (Doc F)
  rename_collection cmd from_ns = do
    let source = split_namespace from_ns (text_or_empty (get "$db" cmd))
    to_ns ← lift (required_string cmd "to")
    move_collection (truthy (get "dropTarget" cmd)) source (split_namespace to_ns source.0)
