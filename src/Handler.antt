-- ===== src/Handler.antt =====
-- internal/handler/handler.go: `Handle`, which names a command and dispatches it.
--
-- The handler is a client of the interface `BackendStore`, which the section takes as a parameter.
pub mod Arguments
pub mod Replies
pub mod Commands
pub mod Calls
pub mod InMemory
pub mod OnTidb
pub mod Rename
use text.Mathlib.Text.{◌==◌}
use timongo.Prelude.{String, List, [], ◌∷◌, Option, none, some, if◌then◌else◌, err}
use timongo.Prelude.Calls.{Call, ◌>>=◌, lift, done}
use timongo.Prelude.Int.{pos}
use timongo.Prelude.Text.{◌+++◌}
use timongo.Value.{Value, int32, Doc}
use timongo.Go.{Go}
use timongo.Mongoerrors.{new, code_command_not_found}
use timongo.Mql.Schema.{text_or_empty}
use timongo.Backend.{BackendStore}
use timongo.Command.{command_name}
use timongo.Handler.Arguments.{bad_value}
use timongo.Handler.Replies.{Fixed, fixed_command, fixed_reply, ok_reply}
use timongo.Handler.Commands.{
  find_command, count_command, distinct_command, aggregate_command, list_indexes_command,
  list_collections_command, insert_command, update_command, delete_command,
  create_collection_command, drop_collection_command, drop_database_command, create_indexes_command,
  find_and_modify, rename_collection,
}

-- The commands whose value is the name of a collection.
pub data OnCollection : Type 0 where
  create drop create_indexes list_indexes drop_indexes insert find count distinct : OnCollection
  find_and_modify_one update delete aggregate : OnCollection

unfoldable pub on_collection : String → Option OnCollection
on_collection name =
    if name == "create"
    then some OnCollection.create
    else if name == "drop"
    then some OnCollection.drop
    else if name == "createIndexes"
    then some OnCollection.create_indexes
    else if name == "listIndexes"
    then some OnCollection.list_indexes
    else if name == "dropIndexes"
    then some OnCollection.drop_indexes
    else if name == "insert"
    then some OnCollection.insert
    else if name == "find"
    then some OnCollection.find
    else if name == "count"
    then some OnCollection.count
    else if name == "distinct"
    then some OnCollection.distinct
    else if name == "findAndModify"
    then some OnCollection.find_and_modify_one
    else if name == "update"
    then some OnCollection.update
    else if name == "delete"
    then some OnCollection.delete
    else if name == "aggregate"
    then some OnCollection.aggregate
    else none

-- The branch of the switch that a name takes.
pub data Branch : Type 0 where
  fixed : Fixed → Branch
  collection : OnCollection → Branch
  list_collections drop_database rename unknown : Branch

abbrev branch_of : Option Fixed → Option OnCollection → String → Branch
branch_of (some f) on name = Branch.fixed f
branch_of none (some c) name = Branch.collection c
branch_of none none name =
    if name == "listCollections"
    then Branch.list_collections
    else if name == "dropDatabase"
    then Branch.drop_database
    else if name == "renameCollection"
    then Branch.rename
    else Branch.unknown

unfoldable pub branch : String → Branch
branch name = branch_of (fixed_command name) (on_collection name) name

module _ {F S : Type 0} ⦃go : Go F⦄ (store : BackendStore F S) where
  -- `coll, ok := value.(string)`, and the guard behind it.
  abbrev pub on_named : String → Value F → (String → Call S (Doc F)) → Call S (Doc F)
  on_named name value run =
      if text_or_empty value == ""
      then lift (err (bad_value (name +++ " must be a collection name")))
      else run (text_or_empty value)

  unfoldable pub run_on_collection : OnCollection → Doc F → Value F → Call S (Doc F)
  run_on_collection OnCollection.create cmd value =
      on_named "create" value (λ coll. create_collection_command store cmd coll)
  run_on_collection OnCollection.drop cmd value =
      on_named "drop" value (λ coll. drop_collection_command store cmd coll)
  run_on_collection OnCollection.create_indexes cmd value =
      on_named "createIndexes" value (λ coll. create_indexes_command store cmd coll)
  run_on_collection OnCollection.list_indexes cmd value =
      on_named "listIndexes" value (λ coll. list_indexes_command store cmd coll)
  run_on_collection OnCollection.drop_indexes cmd value =
      on_named "dropIndexes" value (λ coll. done (ok_reply (("nIndexesWas", int32 (pos 1)) ∷ [])))
  run_on_collection OnCollection.insert cmd value =
      on_named "insert" value (λ coll. insert_command store cmd coll)
  run_on_collection OnCollection.find cmd value =
      on_named "find" value (λ coll. find_command store cmd coll)
  run_on_collection OnCollection.count cmd value =
      on_named "count" value (λ coll. count_command store cmd coll)
  run_on_collection OnCollection.distinct cmd value =
      on_named "distinct" value (λ coll. distinct_command store cmd coll)
  run_on_collection OnCollection.find_and_modify_one cmd value =
      on_named "findAndModify" value (λ coll. find_and_modify store cmd coll)
  run_on_collection OnCollection.update cmd value =
      on_named "update" value (λ coll. update_command store cmd coll)
  run_on_collection OnCollection.delete cmd value =
      on_named "delete" value (λ coll. delete_command store cmd coll)
  run_on_collection OnCollection.aggregate cmd value =
      on_named "aggregate" value (λ coll. aggregate_command store cmd coll)

  unfoldable pub run_branch : Branch → String → Value F → Doc F → Call S (Doc F)
  unfolding run_on_collection
  run_branch (Branch.fixed f) name value cmd = done (fixed_reply f cmd value)
  run_branch (Branch.collection c) name value cmd = run_on_collection c cmd value
  run_branch Branch.list_collections name value cmd = list_collections_command store cmd
  run_branch Branch.drop_database name value cmd = drop_database_command store cmd
  run_branch Branch.rename name value cmd = rename_collection store cmd (text_or_empty value)
  run_branch Branch.unknown name value cmd =
      lift (err (new code_command_not_found "CommandNotFound" ("no such command: " +++ name)))

  -- `Handle(cmd)`
  unfoldable pub handle : Doc F → Call S (Doc F)
  handle cmd = do (name, value) ← lift (command_name cmd); run_branch (branch name) name value cmd
