-- ===== src/Tidb/Rows.antt =====
-- internal/backend/tidb/store.go: the loops over the rows of a query.
use timongo.Prelude.{String, List, [], ◌∷◌, if◌then◌else◌, Option, none, some, Result, ok, ◌>>=◌}
use timongo.Prelude.Int.{pos}
use timongo.Prelude.Dict.{lookup, insert, remove}
use timongo.Value.{Value, str, int32, Doc, of_doc}
use timongo.Go.{Go}
use timongo.Bsonutil.ExtJson.{ExtJson, unmarshal_ext_json}
use timongo.Mql.Match.{matches}
use timongo.Mql.Update.{insert_all}
use timongo.Backend.{CollectionInfo}
use timongo.Tidb.Connection.{Rows, last, row}

-- `tables = append(tables, table)`
unfoldable pub read_tables : Rows String → Result (List String)
read_tables (last closed) = closed >>= λ _. ok []
read_tables (row scanned rest) =
    let more = read_tables rest in do table ← scanned; tables ← more; ok (table ∷ tables)

module _ {F : Type 0} where
  -- The key of an index, if its definition has one.
  abbrev pub with_index_key : Option (Value F) → Doc F → Doc F
  with_index_key none d = d
  with_index_key (some key) d = insert "key" key d

  -- The document of an index, by its name and its definition.
  unfoldable pub stored_index : String → Doc F → Doc F
  unfolding insert_all
  stored_index name definition =
      insert_all (remove "key" definition)
        (with_index_key (lookup "key" definition) (("name", str name) ∷ []))

  -- `{"name": "_id_", "key": bson.M{"_id": int32(1)}}`
  abbrev pub id_index : Doc F
  id_index = ("name", str "_id_") ∷ ("key", of_doc (("_id", int32 (pos 1)) ∷ [])) ∷ []

  module _ (json : ExtJson F) where
    -- The loop of `ListCollections`.
    unfoldable pub read_collections : Rows (String × String) → Result (List (CollectionInfo F))
    read_collections (last closed) = closed >>= λ _. ok []
    read_collections (row scanned rest) =
        let more = read_collections rest in
        do
          pair ← scanned
          options ← unmarshal_ext_json json pair.1
          infos ← more
          ok (record { name = pair.0; options = options } ∷ infos)

    -- The loop of `ListIndexes`.
    unfoldable pub read_indexes : Rows (String × String) → Result (List (Doc F))
    unfolding stored_index
    read_indexes (last closed) = closed >>= λ _. ok []
    read_indexes (row scanned rest) =
        let more = read_indexes rest in
        do
          pair ← scanned
          definition ← unmarshal_ext_json json pair.1
          indexes ← more
          ok (stored_index pair.0 definition ∷ indexes)

module _ {F : Type 0} ⦃go : Go F⦄ (json : ExtJson F) where
  -- The loop of `Find`: the documents that match.
  unfoldable pub read_matching : Doc F → Rows String → Result (List (Doc F))
  read_matching f (last closed) = closed >>= λ _. ok []
  read_matching f (row scanned rest) =
      let more = read_matching f rest in
      do
        raw ← scanned
        d ← unmarshal_ext_json json raw
        ds ← more
        ok (if matches d f then d ∷ ds else ds)
