-- ===== src/Mql/Match/Logic.antt =====
-- `$and`, `$or` and `$nor` are conjunction, disjunction and its negation; `$not`, `$ne`, `$nin`
-- negate.
use timongo.Prelude.{
  and_true, map, none, false, String, Bool, not, Option, some, List, [], ◌∷◌, ◌≡◌, refl, ap, ◌∙◌,
  ◌&&◌, ◌||◌, all, any, not-any, arith,
}
use timongo.Value.{doc, map_any, as_map, Value, Doc, fields, of_doc, of_list, as_array, values}
use timongo.Value.Laws.{fields-entries}
use timongo.Mql.Compare.Laws.{compare_flip}
use timongo.Mql.Path.{or_nil}
use timongo.Go.{Go, IsOrdered}
use timongo.Mql.Compare.{value_equals}
use timongo.Mql.Match.Keys.{filter_key, operator}
use timongo.Mql.Match.Operators.{test_operator}
use timongo.Mql.Match.{
  match_ops, match_fields, match_value, matches, match_op, every_item, some_item,
}

module _ {F : Type 0} ⦃go : Go F⦄ where
  -- One operator, whatever the form of its argument.
  pub match_op_lem :
      (found : Option (Value F)) (op : String) (arg : Value F)
      → match_op found op arg
        ≡ test_operator
            (operator op)
            found
            arg
            (λ item. matches item (as_map arg))
            (λ _. match_value found arg)
  unfolding match_op match_value matches as_map
  match_op_lem found op (doc m) = rw (fields-entries m) refl
  match_op_lem found op (map_any m) = rw (fields-entries m) refl
  match_op_lem found op _ = refl

  -- A list of filters as the argument of `$and`, `$or` or `$nor`.
  abbrev pub filters : List (Doc F) → Value F
  filters fs = of_list (map of_doc fs)

  abbrev pub only : String → Value F → Doc F
  only key v = (key, v) ∷ []

  every_item-filters :
      (d : Doc F) (fs : List (Doc F)) → every_item d (values (map of_doc fs)) ≡ all (matches d) fs
  unfolding match_fields matches
  every_item-filters d [] = refl
  every_item-filters d (f ∷ fs) = ap (◌&&◌ (match_fields d (fields f))) (every_item-filters d fs)

  some_item-filters :
      (d : Doc F) (fs : List (Doc F)) → some_item d (values (map of_doc fs)) ≡ any (matches d) fs
  unfolding match_fields matches
  some_item-filters d [] = refl
  some_item-filters d (f ∷ fs) = ap (◌||◌ (match_fields d (fields f))) (some_item-filters d fs)

  -- On a list of filters `$and` matches the documents that all of them match, `$or` those that one of
  -- them matches, and `$nor` those that none of them matches.
  pub matches-and-or-nor :
      (d : Doc F) (fs : List (Doc F))
      → (matches d (only "$and" (filters fs)) ≡ all (matches d) fs)
        × (matches d (only "$or" (filters fs)) ≡ any (matches d) fs)
        × (matches d (only "$nor" (filters fs)) ≡ all (λ f. not (matches d f)) fs)
  unfolding match_fields matches filter_key
  matches-and-or-nor d fs = (
    and_true _ ∙ every_item-filters d fs,
    and_true _ ∙ some_item-filters d fs,
    and_true _ ∙ ap not (some_item-filters d fs) ∙ not-any (matches d) fs,
  )

  -- A condition with one operator.
  abbrev pub meets : Option (Value F) → String → Value F → Bool
  meets found op arg = match_value found (of_doc (only op arg))

  -- `$not` negates the condition that it is given; `$ne` negates `$eq`, and `$nin` negates `$in`,
  -- whether or not the field exists.
  pub match_value-negations :
      (found : Option (Value F)) (arg : Value F) (cond : Doc F)
      → (meets found "$not" (of_doc cond) ≡ not (match_value found (of_doc cond)))
        × (meets found "$ne" arg ≡ not (meets found "$eq" arg))
        × (meets found "$nin" arg ≡ not (meets found "$in" arg))
  unfolding match_value match_ops operator test_operator
  match_value-negations found arg cond = (
    and_true _,
    rw (match_op_lem found "$ne" arg, match_op_lem found "$eq" arg) (ground arith),
    rw (match_op_lem found "$nin" arg, match_op_lem found "$in" arg)
        (ground (arith, not-any (value_equals (or_nil found)) (as_array arg))),
  )

  -- On a field that exists, `$gte` is the negation of `$lt`, and `$lte` of `$gt`. On a field that
  -- does not exist all four fail.
  pub match_value-comparisons :
      (got arg : Value F)
      → (meets (some got) "$gte" arg ≡ not (meets (some got) "$lt" arg))
        × (meets (some got) "$lte" arg ≡ not (meets (some got) "$gt" arg))
        × (meets none "$gte" arg ≡ false)
        × (meets none "$lt" arg ≡ false)
        × (meets none "$lte" arg ≡ false)
        × (meets none "$gt" arg ≡ false)
  unfolding match_value match_ops operator test_operator
  match_value-comparisons got arg = (
    rw (match_op_lem (some got) "$gte" arg, match_op_lem (some got) "$lt" arg) (ground arith),
    rw (match_op_lem (some got) "$lte" arg, match_op_lem (some got) "$gt" arg) (ground arith),
    rw (match_op_lem none "$gte" arg) refl,
    rw (match_op_lem none "$lt" arg) refl,
    rw (match_op_lem none "$lte" arg) refl,
    rw (match_op_lem none "$gt" arg) refl,
  )

module _ {F : Type 0} ⦃go : Go F⦄ (ordered_floats : IsOrdered go) where
  -- If the floats are ordered, one value is `$lt` another exactly when the other is `$gt` the one,
  -- and `$lte` exactly when the other is `$gte` the one.
  pub match_value-swap :
      (v w : Value F)
      → (meets (some v) "$lt" w ≡ meets (some w) "$gt" v)
        × (meets (some v) "$lte" w ≡ meets (some w) "$gte" v)
  unfolding match_value match_ops operator test_operator
  match_value-swap v w = (
    rw (match_op_lem (some v) "$lt" w, match_op_lem (some w) "$gt" v)
        (ground (arith, compare_flip ordered_floats v w)),
    rw (match_op_lem (some v) "$lte" w, match_op_lem (some w) "$gte" v)
        (ground (arith, compare_flip ordered_floats v w)),
  )
