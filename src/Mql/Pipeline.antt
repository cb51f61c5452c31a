-- ===== src/Mql/Pipeline.antt =====
-- internal/mql/mql.go: `ApplyPipeline`.
pub mod Laws
use text.Mathlib.Text.{◌==◌}
use timongo.Prelude.{
  String, List, [], ◌∷◌, Option, none, some, if◌then◌else◌, Result, ok, err, panic,
  unsupported_stage, ◌>>=◌, filter, filter_map, length, take, drop, ltb, leb, ◌||◌,
}
use timongo.Prelude.Int.{ℤ, pos, negsuc}
use timongo.Value.{Value, str, int32, int64, doc, end, Doc, as_map, of_doc, entries}
use timongo.Go.{Go}
use timongo.Mql.Match.{matches}
use timongo.Mql.Match.Operators.{int_value}
use timongo.Mql.Sort.{sort_docs}
use timongo.Mql.Project.{project, add_fields, unset_fields, unwind}
use timongo.Mql.Expr.{eval_expr}
use timongo.Mql.Group.{group}
use timongo.Mql.Update.Operators.{get}

module _ {F : Type 0} where
  -- `docs[:n]` and `docs[n:]` panic for a negative `n`.
  unfoldable pub limit_stage : ℤ → List (Doc F) → Result (List (Doc F))
  limit_stage (pos n) ds = ok (if ltb n (length ds) then take n ds else ds)
  limit_stage (negsuc n) ds = panic

  unfoldable pub skip_stage : ℤ → List (Doc F) → Result (List (Doc F))
  skip_stage (pos n) ds = ok (if leb (length ds) n then [] else drop n ds)
  skip_stage (negsuc n) ds = panic

  unfoldable pub sample_stage : ℤ → List (Doc F) → List (Doc F)
  sample_stage (pos n) ds = if ltb 0 n then (if ltb n (length ds) then take n ds else ds) else ds
  sample_stage (negsuc n) ds = ds

  count_name : Value F → String
  count_name (str s) = if s == "" then "count" else s
  count_name _ = "count"

  as_doc : Value F → Option (Doc F)
  as_doc (doc m) = some (entries m)
  as_doc _ = none

module _ {F : Type 0} ⦃go : Go F⦄ where
  sort_by_count : List (Doc F) → Value F → Result (List (Doc F))
  sort_by_count ds raw = do
    grouped ← group ds (("_id", raw) ∷ ("count", of_doc (("$sum", int32 (pos 1)) ∷ [])) ∷ [])
    ok (sort_docs grouped (("count", int32 (negsuc 0)) ∷ []))

  -- The switch over one stage.
  unfoldable pub run_stage : String → Value F → List (Doc F) → Result (List (Doc F))
  unfolding limit_stage skip_stage sample_stage count_name as_doc sort_by_count
  run_stage op raw ds =
      if op == "$match"
      then ok (filter (λ d. matches d (as_map raw)) ds)
      else if op == "$limit"
      then limit_stage (int_value raw) ds
      else if op == "$skip"
      then skip_stage (int_value raw) ds
      else if op == "$sort"
      then ok (sort_docs ds (as_map raw))
      else if op == "$project"
      then ok (project ds (as_map raw))
      else if op == "$addFields" || op == "$set"
      then ok (add_fields ds (as_map raw))
      else if op == "$unset"
      then ok (unset_fields ds raw)
      else if op == "$unwind"
      then ok (unwind ds raw)
      else if op == "$count"
      then ok (((count_name raw, int64 (pos (length ds))) ∷ []) ∷ [])
      else if op == "$group"
      then group ds (as_map raw)
      else if op == "$sortByCount"
      then sort_by_count ds raw
      else if op == "$replaceRoot"
      then ok (filter_map (λ d. as_doc (eval_expr d (get "newRoot" (as_map raw)))) ds)
      else if op == "$sample"
      then ok (sample_stage (int_value (get "size" (as_map raw))) ds)
      else if op == "$planCacheStats"
      then ok ((("createdFromQuery", doc end) ∷ ("works", int32 (pos 0)) ∷ []) ∷ [])
      else err (unsupported_stage op)

  -- The loop over the entries of one stage's document.
  unfoldable pub run_stages : Doc F → List (Doc F) → Result (List (Doc F))
  run_stages [] ds = ok ds
  run_stages ((op, raw) ∷ stage) ds = do ds' ← run_stage op raw ds; run_stages stage ds'

  -- `ApplyPipeline(input, pipeline)`, over the items of the `bson.A`.
  unfoldable pub apply_pipeline : List (Doc F) → List (Value F) → Result (List (Doc F))
  unfolding run_stages
  apply_pipeline ds [] = ok ds
  apply_pipeline ds (raw_stage ∷ pipeline) = do
    ds' ← run_stages (as_map raw_stage) ds
    apply_pipeline ds' pipeline
