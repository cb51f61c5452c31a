-- ===== src/Tidb/Write/Tables.antt =====
-- internal/backend/tidb/store.go: what the statements of the store do to one table of documents.
use timongo.Prelude.{String, ℕ, List, [], ◌∷◌, none, some, if◌then◌else◌, ◌≡◌, ◌∙◌, ok, ◌⊎◌}
use timongo.Prelude.Calls.{Keeps, Keeps-lift, Keeps-seq}
use timongo.Prelude.Dict.{Dict, lookup}
use text.Mathlib.Text.{◌==◌}
use timongo.Value.{str, Doc}
use timongo.Go.{Go}
use timongo.Backend.{FindRequest}
use timongo.Bsonutil.ExtJson.{ExtJson, marshal_ext_json}
use timongo.Tidb.Connection.{Connection, Argument, value}
use timongo.Tidb.Read.{asks, ensure_table, find_in_tidb}
use timongo.Tidb.Read.Still.{MakesOnly, Still, ensure-Still, find-Still}
use timongo.Tidb.Catalog.{
  create_in_tidb, collection_options, collection_validator, upsert_collection,
}
use timongo.Tidb.Write.{insert_row, replace_row, delete_row, row_values}

-- The JSON of the documents of a table, by their keys.
abbrev pub Table : Type 0
Table = Dict String

-- The key has this text, and the others what they had.
abbrev pub Puts : String → String → Table → Table → Type 0
Puts key text before after =
    (k : String) → lookup k after ≡ (if key == k then some text else lookup k before)

abbrev pub Removes : String → Table → Table → Type 0
Removes key before after =
    (k : String) → lookup k after ≡ (if key == k then none else lookup k before)

-- What SQL documents of the statements that the store runs, for the rows `rows` that are committed to
-- one table and the rows `pending` that a transaction sees there. Any statement may fail. One that
-- fails changes nothing, but a COMMIT, a REPLACE or a DELETE whose answer is lost may have its effect.
-- `pretty` is what `JSON_PRETTY` shows of a text that was stored.
pub record IsSql {F C : Type 0} (conn : Connection F C) (json : ExtJson F) (table : List ℕ)
    (rows pending : C → Table) (pretty : String → String) : Type 0 where
  pub made : MakesOnly conn rows
  pub cataloged :
      (args : List (Argument F)) (c : C) → rows (conn.exec (upsert_collection, args) c).0 ≡ rows c
  pub begun :
      (c : C)
      → (rows (conn.begin c).0 ≡ rows c)
        × ((conn.begin c).1 ≡ ok tt → pending (conn.begin c).0 ≡ rows c)
  pub inserted :
      (key raw : String) (c : C)
      → let out = conn.tx_exec (insert_row table, row_values json key raw) c in
        (rows out.0 ≡ rows c)
        × (out.1 ≡ ok tt
            → (lookup key (pending c) ≡ none) × Puts key (pretty raw) (pending c) (pending out.0))
  pub committed :
      (c : C)
      → let out = conn.commit c in
        ((rows out.0 ≡ rows c) ⊎ (rows out.0 ≡ pending c))
        × (out.1 ≡ ok tt → rows out.0 ≡ pending c)
  pub rolled_back : (c : C) → rows (conn.rollback c) ≡ rows c
  pub replaced :
      (key raw : String) (c : C)
      → let out = conn.exec (replace_row table, row_values json key raw) c in
        ((rows out.0 ≡ rows c) ⊎ Puts key (pretty raw) (rows c) (rows out.0))
        × (out.1 ≡ ok tt → Puts key (pretty raw) (rows c) (rows out.0))
  pub deleted :
      (key : String) (c : C)
      → let out = conn.exec (delete_row table, value (str key) ∷ []) c in
        ((rows out.0 ≡ rows c) ⊎ Removes key (rows c) (rows out.0))
        × (out.1 ≡ ok tt → Removes key (rows c) (rows out.0))

module _ {F C : Type 0} ⦃go : Go F⦄ {conn : Connection F C} {json : ExtJson F} {table : List ℕ}
    {rows pending : C → Table} {pretty : String → String}
    (sql : IsSql conn json table rows pending pretty) where
  options-unchanged :
      (c : C) (db coll : String) → Keeps (Still rows c) (collection_options conn json db coll)
  unfolding collection_options
  options-unchanged c db coll = Keeps-seq (Still rows c) (asks _) _ (λ s h. h) λ row s h. h

  pub validator-unchanged :
      (c : C) (db coll : String) → Keeps (Still rows c) (collection_validator conn json db coll)
  unfolding collection_validator
  validator-unchanged c db coll =
      Keeps-seq (Still rows c) (collection_options conn json db coll) _
        (options-unchanged c db coll) λ options s h. h

  pub create-unchanged :
      (c : C) (db coll : String) (validator : Doc F)
      → Keeps (Still rows c) (create_in_tidb conn json db coll validator)
  unfolding create_in_tidb
  create-unchanged c db coll validator =
      Keeps-seq (Still rows c) (ensure_table conn _) _ (ensure-Still conn json rows sql.made c _)
        λ u.
          Keeps-seq (Still rows c) (collection_options conn json db coll) _
            (options-unchanged c db coll)
            λ o.
              Keeps-lift (Still rows c) (marshal_ext_json json _) _ λ raw s h. sql.cataloged _ s ∙ h

  pub find-unchanged :
      (c : C) (db coll : String) (req : FindRequest F)
      → Keeps (Still rows c) (find_in_tidb conn json db coll req)
  find-unchanged c db coll req = find-Still conn json rows sql.made c db coll req
