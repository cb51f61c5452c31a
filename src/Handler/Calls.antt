-- ===== src/Handler/Calls.antt =====
-- The calls of the store that a command may make, and what a command ensures.
--
-- `permits` is a table that is written from the commands' meaning: which operations a command is
-- for, and on which collection.
pub mod Rules
pub mod Commands
pub mod Compound
pub mod Laws
use text.Mathlib.Text.{◌==◌}
use timongo.Prelude.{
  String, ℕ, Bool, true, false, List, [], ◌∷◌, ◌&&◌, ◌||◌, all, ◌≡◌, Result, ok, err, panic,
}
use timongo.Prelude.Calls.{Call}
use timongo.Value.{Doc, Value}
use timongo.Backend.Calls.{StoreCall}
use timongo.Backend.{BackendStore, FindRequest, UpdateModel, DeleteModel, IndexModel}
use timongo.Handler.{OnCollection, Branch}
use timongo.Handler.Arguments.{split_namespace}

-- The place, a database and a collection, is the one named.
abbrev pub is_at : String × String → String → String → Bool
is_at place db coll = place.0 == db && place.1 == coll

module _ {F : Type 0} where
  -- The calls that the command makes for a collection, all on that collection.
  abbrev pub permits : OnCollection → String → String → StoreCall F → Bool
  permits OnCollection.create db coll (StoreCall.create_collection db' coll' _) =
      db == db' && coll == coll'
  permits OnCollection.drop db coll (StoreCall.drop_collection db' coll') =
      db == db' && coll == coll'
  permits OnCollection.create_indexes db coll (StoreCall.create_indexes db' coll' _) =
      db == db' && coll == coll'
  permits OnCollection.list_indexes db coll (StoreCall.list_indexes db' coll') =
      db == db' && coll == coll'
  permits OnCollection.insert db coll (StoreCall.insert_many db' coll' _) =
      db == db' && coll == coll'
  permits OnCollection.find db coll (StoreCall.find db' coll' _) = db == db' && coll == coll'
  permits OnCollection.count db coll (StoreCall.count db' coll' _) = db == db' && coll == coll'
  permits OnCollection.distinct db coll (StoreCall.distinct db' coll' _ _) =
      db == db' && coll == coll'
  permits OnCollection.find_and_modify_one db coll (StoreCall.find db' coll' _) =
      db == db' && coll == coll'
  permits OnCollection.find_and_modify_one db coll (StoreCall.update_many db' coll' _) =
      db == db' && coll == coll'
  permits OnCollection.find_and_modify_one db coll (StoreCall.delete_many db' coll' _) =
      db == db' && coll == coll'
  permits OnCollection.update db coll (StoreCall.update_many db' coll' _) =
      db == db' && coll == coll'
  permits OnCollection.delete db coll (StoreCall.delete_many db' coll' _) =
      db == db' && coll == coll'
  permits OnCollection.aggregate db coll (StoreCall.aggregate db' coll' _) =
      db == db' && coll == coll'
  permits _ db coll _ = false

  -- The calls of any command, by its database, its value and its `to`. A rename reads and drops the
  -- collection that it names, and drops, creates and fills its target.
  abbrev pub permits_branch : Branch → String → String → String → StoreCall F → Bool
  permits_branch (Branch.fixed _) db coll to call = false
  permits_branch (Branch.collection c) db coll to call = permits c db coll call
  permits_branch Branch.list_collections db coll to (StoreCall.list_collections db' _) = db == db'
  permits_branch Branch.drop_database db coll to (StoreCall.drop_database db') = db == db'
  permits_branch Branch.rename db ns to (StoreCall.find db' coll' _) =
      is_at (split_namespace ns db) db' coll'
  permits_branch Branch.rename db ns to (StoreCall.drop_collection db' coll') =
      is_at (split_namespace ns db) db' coll'
      || is_at (split_namespace to (split_namespace ns db).0) db' coll'
  permits_branch Branch.rename db ns to (StoreCall.create_collection db' coll' _) =
      is_at (split_namespace to (split_namespace ns db).0) db' coll'
  permits_branch Branch.rename db ns to (StoreCall.insert_many db' coll' _) =
      is_at (split_namespace to (split_namespace ns db).0) db' coll'
  permits_branch _ db coll to _ = false
