-- ===== src/Tidb/Read.antt =====
-- internal/backend/tidb/store.go: `Find`, `Count`, `Distinct` and `Aggregate`, and `ensureCollection`.
pub mod Shown
pub mod Laws
pub mod Served
pub mod Still
use timongo.Prelude.{String, ℕ, List, [], length, Result}
use timongo.Prelude.Calls.{Call, ◌>>=◌, ◌>>◌, lift, done}
use timongo.Value.{Value, Doc}
use timongo.Go.{Go}
use timongo.Bsonutil.ExtJson.{ExtJson}
use timongo.Mql.Options.{FindOptions, apply_find_options}
use timongo.Mql.Pipeline.{apply_pipeline}
use timongo.Memory.Read.{distinct_values, by_filter}
use timongo.Backend.{FindRequest}
use timongo.Tidb.Schema.{physical_table_name, document_table_ddl}
use timongo.Tidb.Connection.{Connection}
use timongo.Tidb.FindSql.{build_find_sql}
use timongo.Tidb.Rows.{read_matching}

-- What only asks leaves the state.
abbrev pub asks : {C A : Type 0} → (C → Result A) → Call C A
asks q c = (c, q c)

-- `ensureCollection(table)`
unfoldable pub ensure_table : {F C : Type 0} → Connection F C → List ℕ → Call C (Unit {0})
ensure_table conn table = conn.exec (document_table_ddl table, [])

module _ {F : Type 0} ⦃go : Go F⦄ where
  abbrev pub options_of : FindRequest F → FindOptions F
  options_of req = record {
    projection = req.projection;
    sort = req.sort;
    skip = req.skip;
    limit = req.limit;
  }

  module _ {C : Type 0} (conn : Connection F C) (json : ExtJson F) where
    -- `Find`
    unfoldable pub find_in_tidb : String → String → FindRequest F → Call C (List (Doc F))
    unfolding build_find_sql read_matching ensure_table
    find_in_tidb db collection req = do
      ensure_table conn (physical_table_name db collection)
      statement ← lift (build_find_sql db collection req)
      rows ← asks (conn.query statement)
      matched ← lift (read_matching json req.filter rows)
      done (apply_find_options matched (options_of req))

    -- `Count`
    unfoldable pub count_in_tidb : String → String → Doc F → Call C ℕ
    count_in_tidb db collection f = do
      ds ← find_in_tidb db collection (by_filter f)
      done (length ds)

    -- `Distinct`
    unfoldable pub distinct_in_tidb : String → String → String → Doc F → Call C (List (Value F))
    distinct_in_tidb db collection key f = do
      ds ← find_in_tidb db collection (by_filter f)
      lift (distinct_values key ds [])

    -- `Aggregate`
    unfoldable pub aggregate_in_tidb : String → String → List (Value F) → Call C (List (Doc F))
    aggregate_in_tidb db collection pipeline = do
      ds ← find_in_tidb db collection (by_filter [])
      lift (apply_pipeline ds pipeline)
