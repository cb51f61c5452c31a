-- ===== src/Mql/Group.antt =====
-- internal/mql/mql.go: `group`.
use text.Mathlib.Text.{◌==◌}
use timongo.Prelude.{
  String, List, [], ◌∷◌, ◌++◌, Option, none, some, map, if◌then◌else◌, Result, ok, err,
  unsupported_accumulator, ◌>>=◌,
}
use timongo.Prelude.Int.{pos}
use timongo.Prelude.Dict.{Dict, lookup, insert}
use timongo.Value.{Value, float64, Doc, as_map, as_array, of_list}
use timongo.Go.{Go}
use timongo.Mql.Compare.{to_float, compare, is_lt, is_gt}
use timongo.Mql.Expr.{eval_expr}
use timongo.Mql.Update.Operators.{add_item, write_if, get}

-- The local type `state`: a group's document, and how many values each `$avg` has seen.
pub record Group (F : Type 0) : Type 0 where
  pub result : Doc F
  pub counts : Dict F

pub data Accumulator : Type 0 where
  sum avg least greatest push add_to_set : Accumulator

unfoldable pub accumulator : String → Option Accumulator
accumulator op =
    if op == "$sum"
    then some Accumulator.sum
    else if op == "$avg"
    then some Accumulator.avg
    else if op == "$min"
    then some Accumulator.least
    else if op == "$max"
    then some Accumulator.greatest
    else if op == "$push"
    then some Accumulator.push
    else if op == "$addToSet"
    then some Accumulator.add_to_set
    else none

module _ {F : Type 0} ⦃go : Go F⦄ where
  abbrev count_of : Option F → F
  count_of none = go.of_int (pos 0)
  count_of (some n) = n

  abbrev write : String → Value F → Group F → Group F
  write out v g = record g { result = insert out v g.result }

  abbrev add_number : String → Value F → Group F → Group F
  add_number out v g = write out (float64 (go.plus (to_float (get out g.result)) (to_float v))) g

  -- One accumulator takes one value.
  unfoldable pub accumulate : Accumulator → String → Value F → Group F → Group F
  accumulate Accumulator.sum out v g = add_number out v g
  accumulate Accumulator.avg out v g =
      let g' = add_number out v g in
      record g' {
        counts = insert out (go.plus (count_of (lookup out g.counts)) (go.of_int (pos 1))) g.counts;
      }
  accumulate Accumulator.least out v g = record g {
    result = write_if (is_lt (compare v (get out g.result))) out v g.result;
  }
  accumulate Accumulator.greatest out v g = record g {
    result = write_if (is_gt (compare v (get out g.result))) out v g.result;
  }
  accumulate Accumulator.push out v g =
      write out (of_list (as_array (get out g.result) ++ v ∷ [])) g
  accumulate Accumulator.add_to_set out v g = write out (of_list (add_item (get out g.result) v)) g

  abbrev accumulate_known :
      Option Accumulator → String → String → Value F → Group F → Result (Group F)
  accumulate_known none op out v g = err (unsupported_accumulator op)
  accumulate_known (some a) op out v g = ok (accumulate a out v g)

  -- The loop over one output's accumulators.
  accumulate_all : Doc F → String → Doc F → Group F → Result (Group F)
  accumulate_all d out [] g = ok g
  accumulate_all d out ((op, expr) ∷ acc) g = do
    g' ← accumulate_known (accumulator op) op out (eval_expr d expr) g
    accumulate_all d out acc g'

  -- The loop over the specification, for one document.
  add_outputs : Doc F → Doc F → Group F → Result (Group F)
  unfolding accumulate_all
  add_outputs d [] g = ok g
  add_outputs d ((out, raw) ∷ spec) g = do
    g' ← (if out == "_id" then ok g else accumulate_all d out (as_map raw) g)
    add_outputs d spec g'

  abbrev group_or_new : Option (Group F) → Value F → Group F
  group_or_new none id = record { result = ("_id", id) ∷ []; counts = [] }
  group_or_new (some g) id = g

  -- The loop over the documents. A group is found by the Go syntax of its `_id`.
  group_docs : Doc F → List (Doc F) → Dict (Group F) → Result (Dict (Group F))
  unfolding add_outputs
  group_docs spec [] groups = ok groups
  group_docs spec (d ∷ ds) groups =
      let id = eval_expr d (get "_id" spec) in
      let key = go.print_syntax id in
      do
        g ← add_outputs d spec (group_or_new (lookup key groups) id)
        group_docs spec ds (insert key g groups)

  -- The loop that divides the sums of `$avg`.
  divide_sums : Dict F → Doc F → Doc F
  divide_sums [] result = result
  divide_sums ((name, count) ∷ counts) result = divide_sums counts (
      if go.less (go.of_int (pos 0)) count
      then insert name (float64 (go.divided (to_float (get name result)) count)) result
      else result)

  abbrev finished : String × Group F → Doc F
  finished e = let (_, g) = e in divide_sums g.counts g.result

  -- `range` goes over the groups in an order of its own.
  unfoldable pub group : List (Doc F) → Doc F → Result (List (Doc F))
  unfolding group_docs divide_sums
  group ds spec = do groups ← group_docs spec ds []; ok (go.in_range (map finished groups))
