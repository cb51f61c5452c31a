-- ===== src/Handler/Calls/Commands.antt =====
-- What each command of internal/handler/handler.go ensures: it makes the calls that it is for, on
-- its own collection, and a reply has `ok: 1`.
use text.Mathlib.Text.{◌==◌}
use timongo.Prelude.{String, true, ◌&&◌, ◌≡◌, refl, some, eq_refl, map, Result}
use timongo.Prelude.Calls.{Call, ◌>>=◌, lift, done}
use timongo.Prelude.Dict.{lookup}
use timongo.Prelude.Int.{pos}
use timongo.Value.{Doc, float64}
use timongo.Go.{Go}
use timongo.Mql.Schema.{text_or_empty}
use timongo.Mql.Update.Operators.{get}
use timongo.Backend.{BackendStore}
use timongo.Handler.{OnCollection}
use timongo.Handler.Replies.{ok_reply}
use timongo.Handler.Arguments.{
  required_string, doc_field, pipeline_field, array_field, item_docs, update_model, delete_model,
  index_model, find_request,
}
use timongo.Handler.Commands
use timongo.Handler.Commands.{
  first_match, remove_found, remove_one, update_found, shown, modify_one, find_and_modify,
  or_before,
}
use timongo.Backend.Calls.{StoreCall, perform}
use timongo.Handler.Calls.{permits}
use timongo.Handler.Calls.Rules.{
  Ensures, Ensures-done, Ensures-lift, Ensures-call, Ensures-required,
}

pub same_place : (db coll : String) → (db == db && coll == coll) ≡ true
same_place db coll = rw (eq_refl db, eq_refl coll) refl

module _ {F : Type 0} ⦃go : Go F⦄ where
  -- A reply says that the command went well.
  abbrev pub HasOk : Doc F → Type 0
  HasOk reply = lookup "ok" reply ≡ some (float64 (go.of_int (pos 1)))

  pub has_ok : (rest : Doc F) → HasOk (ok_reply rest)
  unfolding lookup
  has_ok rest = refl

-- A command that works on the collection `coll` of its `$db`.
module _ {F S : Type 0} ⦃go : Go F⦄ (store : BackendStore F S) (c : OnCollection) (cmd : Doc F)
    (coll : String) where
  abbrev pub db : String
  db = text_or_empty (get "$db" cmd)

  abbrev pub On : Call S (Doc F) → Type 0
  On m = Ensures store (permits c db coll) HasOk m

  pub On-db :
      (f : String → Call S (Doc F)) → On (f db) → On (lift (required_string cmd "$db") >>= f)
  On-db f h = Ensures-required store (permits c db coll) HasOk cmd "$db" f h

  pub reading :
      {A : Type 0} (r : Result A) (f : A → Call S (Doc F))
      → ((a : A) → On (f a))
      → On (lift r >>= f)
  reading r f h = Ensures-lift store (permits c db coll) HasOk r f (λ a _. h a)

  pub calling :
      {A : Type 0} (k : StoreCall F) (m : Call S A) (f : A → Call S (Doc F))
      → ((s : S) → (m s).0 ≡ perform store k s)
      → permits c db coll k ≡ true
      → ((a : A) → On (f a))
      → On (m >>= f)
  calling k m f e permitted h = Ensures-call store (permits c db coll) HasOk k m f e permitted h

  pub replying : (rest : Doc F) → On (done (ok_reply rest))
  replying rest = Ensures-done store (permits c db coll) HasOk (ok_reply rest) (has_ok rest)

module _ {F S : Type 0} ⦃go : Go F⦄ (store : BackendStore F S) (cmd : Doc F) (coll : String) where
  abbrev db' : String
  db' = text_or_empty (get "$db" cmd)

  pub find_command-Ensures :
      On store OnCollection.find cmd coll (Commands.find_command store cmd coll)
  unfolding Commands.find_command
  find_command-Ensures = On-db store OnCollection.find cmd coll _ (
      reading store OnCollection.find cmd coll (find_request cmd) _ λ req.
        calling store OnCollection.find cmd coll (StoreCall.find db' coll req)
          (store.find db' coll req) _ (λ s. refl) (same_place db' coll)
          λ r. replying store OnCollection.find cmd coll _)

  pub count_command-Ensures :
      On store OnCollection.count cmd coll (Commands.count_command store cmd coll)
  unfolding Commands.count_command
  count_command-Ensures = On-db store OnCollection.count cmd coll _ (
      reading store OnCollection.count cmd coll (doc_field cmd "query") _ λ query.
        calling store OnCollection.count cmd coll (StoreCall.count db' coll query)
          (store.count db' coll query) _ (λ s. refl) (same_place db' coll)
          λ r. replying store OnCollection.count cmd coll _)

  pub distinct_command-Ensures :
      On store OnCollection.distinct cmd coll (Commands.distinct_command store cmd coll)
  unfolding Commands.distinct_command
  distinct_command-Ensures = On-db store OnCollection.distinct cmd coll _ (
      reading store OnCollection.distinct cmd coll (required_string cmd "key") _ λ key.
        (reading store OnCollection.distinct cmd coll (doc_field cmd "query") _ λ query.
          calling store OnCollection.distinct cmd coll (StoreCall.distinct db' coll key query)
            (store.distinct db' coll key query) _ (λ s. refl) (same_place db' coll)
            λ r. replying store OnCollection.distinct cmd coll _))

  pub aggregate_command-Ensures :
      On store OnCollection.aggregate cmd coll (Commands.aggregate_command store cmd coll)
  unfolding Commands.aggregate_command
  aggregate_command-Ensures = On-db store OnCollection.aggregate cmd coll _ (
      reading store OnCollection.aggregate cmd coll (pipeline_field cmd) _ λ pipeline.
        calling store OnCollection.aggregate cmd coll (StoreCall.aggregate db' coll pipeline)
          (store.aggregate db' coll pipeline) _ (λ s. refl) (same_place db' coll)
          λ r. replying store OnCollection.aggregate cmd coll _)

  pub list_indexes_command-Ensures :
      On store OnCollection.list_indexes cmd coll (Commands.list_indexes_command store cmd coll)
  unfolding Commands.list_indexes_command
  list_indexes_command-Ensures = On-db store OnCollection.list_indexes cmd coll _ (
      calling store OnCollection.list_indexes cmd coll (StoreCall.list_indexes db' coll)
        (store.list_indexes db' coll) _ (λ s. refl) (same_place db' coll)
        λ r. replying store OnCollection.list_indexes cmd coll _)

  pub insert_command-Ensures :
      On store OnCollection.insert cmd coll (Commands.insert_command store cmd coll)
  unfolding Commands.insert_command
  insert_command-Ensures = On-db store OnCollection.insert cmd coll _ (
      reading store OnCollection.insert cmd coll (array_field cmd "documents") _ λ raw.
        (reading store OnCollection.insert cmd coll (item_docs "document" raw) _ λ ds.
          calling store OnCollection.insert cmd coll (StoreCall.insert_many db' coll ds)
            (store.insert_many db' coll ds) _ (λ s. refl) (same_place db' coll)
            λ r. replying store OnCollection.insert cmd coll _))

  pub update_command-Ensures :
      On store OnCollection.update cmd coll (Commands.update_command store cmd coll)
  unfolding Commands.update_command
  update_command-Ensures = On-db store OnCollection.update cmd coll _ (
      reading store OnCollection.update cmd coll (array_field cmd "updates") _ λ raw.
        (reading store OnCollection.update cmd coll (item_docs "update item" raw) _ λ ds.
          calling store OnCollection.update cmd coll
            (StoreCall.update_many db' coll (map update_model ds))
            (store.update_many db' coll (map update_model ds)) _ (λ s. refl) (same_place db' coll)
            λ r. replying store OnCollection.update cmd coll _))

  pub delete_command-Ensures :
      On store OnCollection.delete cmd coll (Commands.delete_command store cmd coll)
  unfolding Commands.delete_command
  delete_command-Ensures = On-db store OnCollection.delete cmd coll _ (
      reading store OnCollection.delete cmd coll (array_field cmd "deletes") _ λ raw.
        (reading store OnCollection.delete cmd coll (item_docs "delete item" raw) _ λ ds.
          calling store OnCollection.delete cmd coll
            (StoreCall.delete_many db' coll (map delete_model ds))
            (store.delete_many db' coll (map delete_model ds)) _ (λ s. refl) (same_place db' coll)
            λ r. replying store OnCollection.delete cmd coll _))

  pub create_collection_command-Ensures :
      On store OnCollection.create cmd coll (Commands.create_collection_command store cmd coll)
  unfolding Commands.create_collection_command
  create_collection_command-Ensures = On-db store OnCollection.create cmd coll _ (
      reading store OnCollection.create cmd coll (doc_field cmd "validator") _ λ validator.
        calling store OnCollection.create cmd coll (StoreCall.create_collection db' coll validator)
          (store.create_collection db' coll validator) _ (λ s. refl) (same_place db' coll)
          λ r. replying store OnCollection.create cmd coll _)

  pub drop_collection_command-Ensures :
      On store OnCollection.drop cmd coll (Commands.drop_collection_command store cmd coll)
  unfolding Commands.drop_collection_command
  drop_collection_command-Ensures = On-db store OnCollection.drop cmd coll _ (
      calling store OnCollection.drop cmd coll (StoreCall.drop_collection db' coll)
        (store.drop_collection db' coll) _ (λ s. refl) (same_place db' coll)
        λ r. replying store OnCollection.drop cmd coll _)

  pub create_indexes_command-Ensures :
      On store OnCollection.create_indexes cmd coll (Commands.create_indexes_command store cmd coll)
  unfolding Commands.create_indexes_command
  create_indexes_command-Ensures = On-db store OnCollection.create_indexes cmd coll _ (
      reading store OnCollection.create_indexes cmd coll (array_field cmd "indexes") _ λ raw.
        (reading store OnCollection.create_indexes cmd coll (item_docs "index" raw) _ λ ds.
          calling store OnCollection.create_indexes cmd coll
            (StoreCall.create_indexes db' coll (map index_model ds))
            (store.create_indexes db' coll (map index_model ds)) _ (λ s. refl) (same_place db' coll)
            λ r. replying store OnCollection.create_indexes cmd coll _))
