-- ===== src/Tidb/Catalog.antt =====
-- internal/backend/tidb/store.go: `CreateCollection`, `ListCollections`, `DropCollection`,
-- `DropDatabase`, `collectionOptions`, `collectionValidator` and `collectionID`, and
-- internal/catalog/catalog.go.
pub mod Pattern
pub mod Dropped
use timongo.Prelude.{
  String, ℕ, List, [], ◌∷◌, ◌++◌, Option, none, some, if◌then◌else◌, eqb, is_empty, ◌&&◌, Result,
  ok, err, library_error,
}
use timongo.Prelude.Int.{ℤ}
use timongo.Prelude.Calls.{Call, ◌>>=◌, ◌>>◌, lift, done}
use timongo.Prelude.Dict.{lookup, insert}
use timongo.Value.{Value, str, bytes, Doc, of_doc}
use timongo.Go.{Go}
use timongo.Mql.Schema.{as_doc_or_nil}
use timongo.Mql.Update.Operators.{get}
use timongo.Bsonutil.ExtJson.{ExtJson, marshal_ext_json, unmarshal_ext_json}
use timongo.Backend.{CollectionInfo}
use timongo.Tidb.Schema.{codes, physical_table_name}
use timongo.Tidb.Connection.{Connection, Argument, value, text}
use timongo.Tidb.Rows.{read_collections, read_tables}
use timongo.Tidb.Read.{asks, ensure_table}

-- `strings.TrimSuffix(s, "_")`
unfoldable pub trim_suffix : List ℕ → List ℕ
trim_suffix [] = []
trim_suffix (n ∷ s) = let rest = trim_suffix s in if eqb n b'_' && is_empty s then [] else n ∷ rest

-- What `DropDatabase` asks the names of tables for.
unfoldable pub like_pattern : String → List ℕ
unfolding trim_suffix codes
like_pattern db = trim_suffix (physical_table_name db "") ++ codes "_%"

abbrev pub drop_table : List ℕ → List ℕ
drop_table table = codes "DROP TABLE IF EXISTS `" ++ table ++ codes "`"

abbrev pub select_options : List ℕ
select_options =
    codes
      "SELECT JSON_PRETTY(`options_json`) FROM `_timongo`.`collections` WHERE `database_name` = ? AND `collection_name` = ?"

abbrev pub select_id : List ℕ
select_id =
    codes
      "SELECT `id` FROM `_timongo`.`collections` WHERE `database_name` = ? AND `collection_name` = ?"

abbrev pub upsert_collection : List ℕ
upsert_collection =
    codes
      "INSERT INTO `_timongo`.`collections` (`database_name`, `collection_name`, `physical_table`, `options_json`, `schema_version`) VALUES (?, ?, ?, CAST(? AS JSON), 1) ON DUPLICATE KEY UPDATE `physical_table` = VALUES(`physical_table`), `options_json` = VALUES(`options_json`)"

abbrev pub delete_collection : List ℕ
delete_collection =
    codes "DELETE FROM `_timongo`.`collections` WHERE `database_name` = ? AND `collection_name` = ?"

abbrev pub delete_database : List ℕ
delete_database = codes "DELETE FROM `_timongo`.`collections` WHERE `database_name` = ?"

abbrev pub select_collections : List ℕ
select_collections =
    codes
      "SELECT `collection_name`, JSON_PRETTY(`options_json`) FROM `_timongo`.`collections` WHERE `database_name` = ?"

module _ {F C : Type 0} ⦃go : Go F⦄ (conn : Connection F C) (json : ExtJson F) where
  abbrev pub binary : String → Argument F
  binary s = value (bytes (json.utf8 s))

  abbrev pub names : String → String → List (Argument F)
  names db collection = binary db ∷ binary collection ∷ []

  -- A collection that is not in the catalog has nil options.
  abbrev pub options_of_row : Option String → Result (Doc F)
  options_of_row none = ok []
  options_of_row (some raw) = unmarshal_ext_json json raw

  -- `collectionOptions`
  unfoldable pub collection_options : String → String → Call C (Doc F)
  collection_options db collection = do
    row ← asks (conn.query_text (select_options, names db collection))
    lift (options_of_row row)

  -- `collectionValidator`
  unfoldable pub collection_validator : String → String → Call C (Doc F)
  unfolding collection_options
  collection_validator db collection = do
    options ← collection_options db collection
    done (as_doc_or_nil (get "validator" options))

  abbrev pub id_of_row : Option ℤ → Result ℤ
  id_of_row none = err (library_error "sql: no rows in result set")
  id_of_row (some id) = ok id

  -- `collectionID`
  unfoldable pub collection_id : String → String → Call C ℤ
  collection_id db collection = do
    row ← asks (conn.query_number (select_id, names db collection))
    lift (id_of_row row)

  -- The options that are stored.
  abbrev pub with_validator : Doc F → Doc F → Doc F
  with_validator validator existing =
      if is_empty validator then existing else insert "validator" (of_doc validator) existing

  -- `CreateCollection`
  unfoldable pub create_in_tidb : String → String → Doc F → Call C (Unit {0})
  unfolding collection_options ensure_table
  create_in_tidb db collection validator = do
    let table = physical_table_name db collection
    ensure_table conn table
    existing ← collection_options db collection
    raw ← lift (marshal_ext_json json (with_validator validator existing))
    conn.exec (upsert_collection, names db collection ++ text table ∷ value (str raw) ∷ [])

  -- The condition on the name, if the filter has a text there.
  abbrev pub by_name : Option (Value F) → List ℕ × List (Argument F) → List ℕ × List (Argument F)
  by_name (some (str name)) (query, args) =
      (query ++ codes " AND `collection_name` = ?", args ++ binary name ∷ [])
  by_name _ statement = statement

  abbrev pub ordered_by_name : List ℕ × List (Argument F) → List ℕ × List (Argument F)
  ordered_by_name (query, args) = (query ++ codes " ORDER BY `collection_name`", args)

  -- `ListCollections`
  unfoldable pub list_in_tidb : String → Doc F → Call C (List (CollectionInfo F))
  unfolding read_collections
  list_in_tidb db wanted = do
    let statement = by_name (lookup "name" wanted) (select_collections, binary db ∷ [])
    rows ← asks (conn.query_pairs (ordered_by_name statement))
    lift (read_collections json rows)

  -- `DropCollection`
  unfoldable pub drop_in_tidb : String → String → Call C (Unit {0})
  drop_in_tidb db collection = do
    conn.exec (drop_table (physical_table_name db collection), [])
    conn.exec (delete_collection, names db collection)

  -- The loop over the tables.
  unfoldable pub drop_tables : List String → Call C (Unit {0})
  drop_tables [] = done tt
  drop_tables (table ∷ tables) = do conn.exec (drop_table (codes table), []); drop_tables tables

  -- `DropDatabase`
  unfoldable pub drop_database_in_tidb : String → Call C (Unit {0})
  unfolding drop_tables read_tables
  drop_database_in_tidb db = do
    rows ← asks (conn.query (codes "SHOW TABLES LIKE ?", text (like_pattern db) ∷ []))
    tables ← lift (read_tables rows)
    drop_tables tables
    conn.exec (delete_database, binary db ∷ [])
