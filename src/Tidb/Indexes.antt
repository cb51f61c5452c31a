-- ===== src/Tidb/Indexes.antt =====
-- internal/backend/tidb/store.go: `CreateIndexes` and `ListIndexes`.
use text.Mathlib.Text.{◌==◌}
use timongo.Prelude.{String, ℕ, List, [], ◌∷◌, Option, none, some, if◌then◌else◌}
use timongo.Prelude.Int.{ℤ}
use timongo.Prelude.Calls.{Call, ◌>>=◌, ◌>>◌, lift, done}
use timongo.Value.{str, int64, Doc, of_doc}
use timongo.Go.{Go}
use timongo.Bsonutil.ExtJson.{ExtJson, marshal_ext_json}
use timongo.Mql.Update.{insert_all}
use timongo.Backend.{IndexModel}
use timongo.Tidb.Schema.{codes}
use timongo.Tidb.Connection.{Connection, value}
use timongo.Tidb.Rows.{id_index, read_indexes}
use timongo.Tidb.Read.{asks}
use timongo.Tidb.Catalog.{create_in_tidb, collection_id, select_id, names}

abbrev pub upsert_index : List ℕ
upsert_index =
    codes
      "INSERT INTO `_timongo`.`indexes` (`collection_id`, `name`, `definition_json`, `state`) VALUES (?, ?, CAST(? AS JSON), 'ready') ON DUPLICATE KEY UPDATE `definition_json` = VALUES(`definition_json`), `state` = VALUES(`state`)"

abbrev pub select_indexes : List ℕ
select_indexes =
    codes
      "SELECT `name`, JSON_PRETTY(`definition_json`) FROM `_timongo`.`indexes` WHERE `collection_id` = ? ORDER BY `name`"

module _ {F C : Type 0} ⦃go : Go F⦄ (conn : Connection F C) (json : ExtJson F) where
  abbrev pub name_or_unnamed : String → String
  name_or_unnamed name = if name == "" then "unnamed_1" else name

  abbrev pub index_definition : IndexModel F → Doc F
  index_definition idx = insert_all idx.opts (("key", of_doc idx.key) ∷ [])

  -- The loop over the indexes.
  unfoldable pub write_indexes : ℤ → List (IndexModel F) → Call C (List String)
  unfolding insert_all
  write_indexes id [] = done []
  write_indexes id (idx ∷ rest) = do
    raw ← lift (marshal_ext_json json (index_definition idx))
    let name = name_or_unnamed idx.name
    conn.exec (upsert_index, value (int64 id) ∷ value (str name) ∷ value (str raw) ∷ [])
    written ← write_indexes id rest
    done (name ∷ written)

  -- `CreateIndexes`
  unfoldable pub create_indexes_in_tidb :
      String → String → List (IndexModel F) → Call C (List String)
  unfolding write_indexes
  create_indexes_in_tidb db collection models = do
    create_in_tidb conn json db collection []
    id ← collection_id conn json db collection
    write_indexes id models

  -- The indexes of a collection by its number, and of one that is not in the catalog.
  unfoldable pub indexes_of : Option ℤ → Call C (List (Doc F))
  unfolding read_indexes
  indexes_of none = done (id_index ∷ [])
  indexes_of (some id) = do
    rows ← asks (conn.query_pairs (select_indexes, value (int64 id) ∷ []))
    stored ← lift (read_indexes json rows)
    done (id_index ∷ stored)

  -- `ListIndexes`
  unfoldable pub list_indexes_in_tidb : String → String → Call C (List (Doc F))
  unfolding indexes_of
  list_indexes_in_tidb db collection = do
    id ← asks (conn.query_number (select_id, names conn json db collection))
    indexes_of id
