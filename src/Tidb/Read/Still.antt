-- ===== src/Tidb/Read/Still.antt =====
-- internal/backend/tidb/store.go: what `Find`, `Count`, `Distinct`, `Aggregate`, `ListIndexes` and
-- `ListCollections` leave alone.
use timongo.Prelude.{String, ℕ, List, [], ◌≡◌, ◌∙◌}
use timongo.Prelude.Calls.{Keeps, Keeps-lift, Keeps-seq}
use timongo.Value.{Value, Doc}
use timongo.Go.{Go}
use timongo.Backend.{FindRequest}
use timongo.Bsonutil.ExtJson.{ExtJson}
use timongo.Memory.Read.{by_filter}
use timongo.Tidb.Schema.{document_table_ddl}
use timongo.Tidb.Connection.{Connection}
use timongo.Tidb.FindSql.{build_find_sql}
use timongo.Tidb.Rows.{read_matching}
use timongo.Tidb.Read.{
  asks, ensure_table, find_in_tidb, count_in_tidb, distinct_in_tidb, aggregate_in_tidb,
}

-- To make a table, if it is not there, changes nothing that `view` shows.
abbrev pub MakesOnly : {F C V : Type 0} → Connection F C → (C → V) → Type 0
MakesOnly {C = C} conn view =
    (t : List ℕ) (c : C) → view (conn.exec (document_table_ddl t, []) c).0 ≡ view c

-- `view` shows of `s` what it shows of `c`.
abbrev pub Still : {C V : Type 0} → (C → V) → C → C → Type 0
Still view c s = view s ≡ view c

module _ {F C V : Type 0} ⦃go : Go F⦄ (conn : Connection F C) (json : ExtJson F) (view : C → V)
    (made : MakesOnly conn view) (c : C) where
  pub ensure-Still : (t : List ℕ) → Keeps (Still view c) (ensure_table conn t)
  unfolding ensure_table
  ensure-Still t s h = made t s ∙ h

  pub find-Still :
      (db coll : String) (req : FindRequest F)
      → Keeps (Still view c) (find_in_tidb conn json db coll req)
  unfolding find_in_tidb
  find-Still db coll req = Keeps-seq (Still view c) (ensure_table conn _) _ (ensure-Still _) λ u.
      Keeps-lift (Still view c) (build_find_sql db coll req) _ λ statement.
        Keeps-seq (Still view c) (asks (conn.query statement)) _ (λ s h. h)
          λ shown.
            Keeps-lift (Still view c) (read_matching json req.filter shown) _ λ matched s h. h

  pub count-Still :
      (db coll : String) (f : Doc F) → Keeps (Still view c) (count_in_tidb conn json db coll f)
  unfolding count_in_tidb
  count-Still db coll f =
      Keeps-seq (Still view c) (find_in_tidb conn json db coll (by_filter f)) _
        (find-Still db coll (by_filter f)) λ ds s h. h

  pub distinct-Still :
      (db coll key : String) (f : Doc F)
      → Keeps (Still view c) (distinct_in_tidb conn json db coll key f)
  unfolding distinct_in_tidb
  distinct-Still db coll key f =
      Keeps-seq (Still view c) (find_in_tidb conn json db coll (by_filter f)) _
        (find-Still db coll (by_filter f)) λ ds s h. h

  pub aggregate-Still :
      (db coll : String) (pipeline : List (Value F))
      → Keeps (Still view c) (aggregate_in_tidb conn json db coll pipeline)
  unfolding aggregate_in_tidb
  aggregate-Still db coll pipeline =
      Keeps-seq (Still view c) (find_in_tidb conn json db coll (by_filter [])) _
        (find-Still db coll (by_filter [])) λ ds s h. h
