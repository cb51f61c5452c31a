-- ===== src/Tidb/FindSql.antt =====
-- internal/backend/tidb/store.go: `BuildFindSQL`, `canPushDownFind` and `canPushDownFilter`.
use text.Mathlib.Text.{◌==◌}
use timongo.Prelude.{
  String, ℕ, Bool, true, false, List, [], ◌∷◌, ◌++◌, if◌then◌else◌, is_empty, ltb, not, ◌&&◌,
  Result, ok, ◌>>=◌,
}
use timongo.Prelude.Int.{ℤ, pos, negsuc, eqb_ℤ}
use timongo.Prelude.Text.{◌+++◌, starts_with_dollar}
use timongo.Value.{Value, str, int64, doc, map_any, Doc}
use timongo.Go.{Go}
use timongo.Bsonutil.{value_key}
use timongo.Mql.Compare.{sprint}
use timongo.Backend.{FindRequest}
use timongo.Tidb.Schema.{codes, physical_table_name}
use timongo.Tidb.Connection.{Statement, value}

module _ {F : Type 0} where
  abbrev pub is_map_value : Value F → Bool
  is_map_value (doc m) = true
  is_map_value (map_any m) = true
  is_map_value _ = false

  unfoldable pub can_push_down_filter : Doc F → Bool
  can_push_down_filter [] = true
  can_push_down_filter ((key, wanted) ∷ []) =
      (key == "_id") && not (starts_with_dollar key) && not (is_map_value wanted)
  can_push_down_filter (_ ∷ _ ∷ _) = false

  unfoldable pub can_push_down_find : FindRequest F → Bool
  can_push_down_find req =
      eqb_ℤ req.skip (pos 0)
      && is_empty req.sort
      && is_empty req.projection
      && can_push_down_filter req.filter

abbrev pub select_all : List ℕ → List ℕ
select_all table = codes "SELECT JSON_PRETTY(doc_json) FROM `" ++ table ++ codes "`"

module _ {F : Type 0} ⦃go : Go F⦄ where
  -- One round of the loop over the filter.
  unfoldable pub add_condition : String → Value F → Statement F → Result (Statement F)
  add_condition key wanted (query, args) =
      if key == "_id"
      then (value_key wanted >>= λ k.
          ok (query ++ codes " WHERE `id_key` = ?", args ++ value (str k) ∷ []))
      else ok (
        query ++ codes " WHERE JSON_UNQUOTE(JSON_EXTRACT(doc_json, ?)) = ?",
        args ++ value (str ("$." +++ key)) ∷ value (str (sprint wanted)) ∷ [],
      )

  unfoldable pub add_conditions : Doc F → Statement F → Result (Statement F)
  unfolding add_condition
  add_conditions [] statement = ok statement
  add_conditions ((key, wanted) ∷ f) statement = do
    next ← add_condition key wanted statement
    add_conditions f next

  abbrev pub add_limit : ℤ → Statement F → Statement F
  add_limit (pos n) (query, args) =
      if ltb 0 n
      then (query ++ codes " LIMIT ?", args ++ value (int64 (pos n)) ∷ [])
      else (query, args)
  add_limit (negsuc n) statement = statement

  -- `BuildFindSQL(dbName, collection, req)`
  unfoldable pub build_find_sql : String → String → FindRequest F → Result (Statement F)
  unfolding add_conditions
  build_find_sql db collection req =
      let statement : Statement F = (select_all (physical_table_name db collection), []) in
      if can_push_down_find req
      then (add_conditions req.filter statement >>= λ q. ok (add_limit req.limit q))
      else ok statement
