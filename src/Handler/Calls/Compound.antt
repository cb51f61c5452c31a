-- ===== src/Handler/Calls/Compound.antt =====
-- What the commands of several calls ensure: `findAndModify`, `renameCollection`, and those on a
-- database.
use timongo.Prelude.{
  String, Bool, true, false, List, [], ◌∷◌, ◌||◌, true_or, Result, ok, err, panic, refl, eq_refl,
  if◌then◌else◌,
}
use timongo.Prelude.Calls.{Call}
use timongo.Prelude.Int.{pos}
use timongo.Value.{Doc, truthy}
use timongo.Go.{Go}
use timongo.Mql.Schema.{as_doc_or_nil, text_or_empty}
use timongo.Mql.Update.Operators.{get}
use timongo.Backend.{BackendStore}
use timongo.Handler.{OnCollection, Branch}
use timongo.Handler.Arguments.{doc_field, split_namespace}
use timongo.Handler.Commands.{
  first_match, or_before, remove_found, update_found, shown, find_and_modify,
  list_collections_command, drop_database_command, rename_collection, move_collection,
  all_documents, drop_target, insert_copied,
}
use timongo.Backend.Calls.{StoreCall}
use timongo.Handler.Calls.{permits, permits_branch, is_at}
use timongo.Handler.Calls.Rules.{
  AfterOk, Ensures, Ensures-done, Ensures-lift, Ensures-call, Ensures-seq, Ensures-required,
}
use timongo.Handler.Calls.Commands.{HasOk, has_ok, On, On-db, calling, same_place}

module _ {F S : Type 0} ⦃go : Go F⦄ (store : BackendStore F S) (cmd : Doc F) (coll : String) where
  abbrev db : String
  db = text_or_empty (get "$db" cmd)

  abbrev P : StoreCall F → Bool
  P = permits OnCollection.find_and_modify_one db coll

  abbrev Quiet : Call S (Unit {0}) → Type 0
  Quiet m = Ensures store P (λ _. Unit {0}) m

  remove_found-Ensures :
      (query : Doc F) (found : List (Doc F)) → Quiet (remove_found store db coll query found)
  remove_found-Ensures query [] = Ensures-done store P (λ _. Unit {0}) tt tt
  remove_found-Ensures query (d ∷ found) =
      let models = record { filter = query; limit = pos 1 } ∷ [] in
      Ensures-call store P (λ _. Unit {0}) (StoreCall.delete_many db coll models)
        (store.delete_many db coll models) _ (λ s. refl) (same_place db coll)
        λ n. Ensures-done store P (λ _. Unit {0}) tt tt

  update_found-Ensures :
      (query update : Doc F) (upsert : Bool)
      → Quiet (update_found store db coll query update upsert)
  update_found-Ensures query [] upsert = Ensures-done store P (λ _. Unit {0}) tt tt
  update_found-Ensures query (e ∷ update) upsert =
      let models =
        record { filter = query; update = e ∷ update; multi = false; upsert = upsert } ∷ [] in
      Ensures-call store P (λ _. Unit {0}) (StoreCall.update_many db coll models)
        (store.update_many db coll models) _ (λ s. refl) (same_place db coll)
        λ n. Ensures-done store P (λ _. Unit {0}) tt tt

  shown-Ensures :
      (new : Bool) (query : Doc F) (found : List (Doc F))
      → Ensures store P (λ _. Unit {0}) (shown store new db coll query found)
  shown-Ensures false query found = Ensures-done store P (λ _. Unit {0}) found tt
  shown-Ensures true query found =
      Ensures-call store P (λ _. Unit {0}) (StoreCall.find db coll (first_match query))
        (store.find db coll (first_match query)) _ (λ s. refl) (same_place db coll)
        λ after. Ensures-done store P (λ _. Unit {0}) (or_before after found) tt

  either-Ensures :
      (test : Bool) (m m' : Call S (Doc F))
      → Ensures store P HasOk m
      → Ensures store P HasOk m'
      → Ensures store P HasOk (if test then m else m')
  either-Ensures true m m' h h' = h
  either-Ensures false m m' h h' = h'

  pub find_and_modify-Ensures :
      On store OnCollection.find_and_modify_one cmd coll (find_and_modify store cmd coll)
  unfolding find_and_modify
  find_and_modify-Ensures =
      let query = as_doc_or_nil (get "query" cmd) in
      let new = truthy (get "new" cmd) || truthy (get "returnNewDocument" cmd) in
      On-db store OnCollection.find_and_modify_one cmd coll _ (
        calling store OnCollection.find_and_modify_one cmd coll
          (StoreCall.find db coll (first_match query)) (store.find db coll (first_match query)) _
          (λ s. refl) (same_place db coll)
          λ found.
            either-Ensures (truthy (get "remove" cmd)) _ _
              (Ensures-seq store P HasOk (remove_found store db coll query found) _
                (remove_found-Ensures query found) λ _. Ensures-done store P HasOk _ (has_ok _))
              (Ensures-seq store P HasOk _ _
                (update_found-Ensures query (as_doc_or_nil (get "update" cmd))
                  (truthy (get "upsert" cmd)))
                λ _.
                  Ensures-seq store P HasOk (shown store new db coll query found) _
                    (shown-Ensures new query found) λ _. Ensures-done store P HasOk _ (has_ok _)))

-- Of a result that is not looked at.
any_result : (r : Result (Unit {0})) → AfterOk (λ _. Unit {0}) r
any_result (ok a) = tt
any_result (err e) = tt
any_result panic = tt

-- A rename, whose calls are on two collections.
module _ {F S : Type 0} ⦃go : Go F⦄ (store : BackendStore F S) (cmd : Doc F) (ns : String) where
  abbrev rename_db : String
  rename_db = text_or_empty (get "$db" cmd)

  abbrev source : String × String
  source = split_namespace ns rename_db

  abbrev to : String
  to = text_or_empty (get "to" cmd)

  abbrev target : String × String
  target = split_namespace to source.0

  abbrev pub R : StoreCall F → Bool
  R = permits_branch Branch.rename rename_db ns to

  drop_target-Ensures :
      (replace : Bool)
      → Ensures store R (λ _. Unit {0}) (drop_target store replace target.0 target.1)
  drop_target-Ensures true = λ s. (
    StoreCall.drop_collection target.0 target.1 ∷ [],
    rw (true_or (is_at source target.0 target.1) _ (same_place target.0 target.1)) refl,
    refl,
    any_result ((store.drop_collection target.0 target.1 s).1),
  )
  drop_target-Ensures false = Ensures-done store R (λ _. Unit {0}) tt tt

  insert_copied-Ensures :
      (ds : List (Doc F))
      → Ensures store R (λ _. Unit {0}) (insert_copied store target.0 target.1 ds)
  insert_copied-Ensures [] = Ensures-done store R (λ _. Unit {0}) tt tt
  insert_copied-Ensures (e ∷ ds) =
      Ensures-call store R (λ _. Unit {0}) (StoreCall.insert_many target.0 target.1 (e ∷ ds))
        (store.insert_many target.0 target.1 (e ∷ ds)) _ (λ s. refl) (same_place target.0 target.1)
        λ n. Ensures-done store R (λ _. Unit {0}) tt tt

  move_collection-Ensures :
      (replace : Bool) → Ensures store R HasOk (move_collection store replace source target)
  move_collection-Ensures replace =
      Ensures-call store R HasOk (StoreCall.find source.0 source.1 all_documents)
        (store.find source.0 source.1 all_documents) _ (λ s. refl) (same_place source.0 source.1)
        λ ds.
          Ensures-seq store R HasOk (drop_target store replace target.0 target.1) _
            (drop_target-Ensures replace)
            λ _.
              Ensures-call store R HasOk (StoreCall.create_collection target.0 target.1 [])
                (store.create_collection target.0 target.1 []) _ (λ s. refl)
                (same_place target.0 target.1)
                λ _.
                  Ensures-seq store R HasOk (insert_copied store target.0 target.1 ds) _
                    (insert_copied-Ensures ds)
                    λ _.
                      Ensures-call store R HasOk (StoreCall.drop_collection source.0 source.1)
                        (store.drop_collection source.0 source.1) _ (λ s. refl)
                        (rw (same_place source.0 source.1) refl)
                        λ _. Ensures-done store R HasOk _ (has_ok _)

  pub rename_collection-Ensures : Ensures store R HasOk (rename_collection store cmd ns)
  unfolding rename_collection
  rename_collection-Ensures =
      Ensures-required store R HasOk cmd "to" _
        (move_collection-Ensures (truthy (get "dropTarget" cmd)))

module _ {F S : Type 0} ⦃go : Go F⦄ (store : BackendStore F S) (cmd : Doc F) (coll : String) where
  abbrev db' : String
  db' = text_or_empty (get "$db" cmd)

  pub list_collections-Ensures :
      Ensures store
        (permits_branch Branch.list_collections db' coll (text_or_empty (get "to" cmd)))
        HasOk
        (list_collections_command store cmd)
  unfolding list_collections_command
  list_collections-Ensures =
      let L = permits_branch Branch.list_collections db' coll (text_or_empty (get "to" cmd)) in
      Ensures-required store L HasOk cmd "$db" _ (
        Ensures-lift store L HasOk (doc_field cmd "filter") _ λ wanted _.
          Ensures-call store L HasOk (StoreCall.list_collections db' wanted)
            (store.list_collections db' wanted) _ (λ s. refl) (eq_refl db')
            λ infos. Ensures-done store L HasOk _ (has_ok _))

  pub drop_database-Ensures :
      Ensures store
        (permits_branch Branch.drop_database db' coll (text_or_empty (get "to" cmd)))
        HasOk
        (drop_database_command store cmd)
  unfolding drop_database_command
  drop_database-Ensures =
      let D = permits_branch Branch.drop_database db' coll (text_or_empty (get "to" cmd)) in
      Ensures-required store D HasOk cmd "$db" _ (
        Ensures-call store D HasOk (StoreCall.drop_database db') (store.drop_database db') _
          (λ s. refl) (eq_refl db') λ _. Ensures-done store D HasOk _ (has_ok _))
