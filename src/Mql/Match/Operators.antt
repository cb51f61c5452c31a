-- ===== src/Mql/Match/Operators.antt =====
-- internal/mql/mql.go: the switch of `matchValue` over one operator.
use timongo.Prelude.{
  Bool, true, false, not, Option, none, some, List, [], ◌∷◌, ◌&&◌, all, any, length, if◌then◌else◌,
}
use timongo.Prelude.Int.{ℤ, pos, eqb_ℤ}
use timongo.Value.{Value, Doc, as_array, as_map, truthy}
use timongo.Go.{Go}
use timongo.Mql.Compare.{
  to_float, sprint, compare, value_equals, array_contains, is_lt, is_gt, is_le, is_ge,
}
use timongo.Mql.Path.{or_nil}
use timongo.Mql.Types.{matches_type}
use timongo.Mql.Match.Keys.{Operator}

abbrev no_match_is_false : Option Bool → Bool
no_match_is_false none = false
no_match_is_false (some b) = b

module _ {F : Type 0} ⦃go : Go F⦄ where
  abbrev pub found_and : Option (Value F) → (Value F → Bool) → Bool
  found_and none test = false
  found_and (some got) test = test got

  abbrev pub is_some : Option (Value F) → Bool
  is_some none = false
  is_some (some _) = true

  -- `exists && valueEquals(got, want)`
  abbrev pub is_value : Option (Value F) → Value F → Bool
  is_value found want = found_and found (λ got. value_equals got want)

  -- `int64(ToFloat(v))`, and `int(ToFloat(v))` on a machine with 64-bit words
  abbrev pub int_value : Value F → ℤ
  int_value v = go.to_int64 (to_float v)

  mod_case : Value F → List (Value F) → Bool
  mod_case got (divisor ∷ remainder ∷ []) =
      if eqb_ℤ (int_value divisor) (pos 0)
      then false
      else eqb_ℤ (go.rem64 (int_value got) (int_value divisor)) (int_value remainder)
  mod_case got _ = false

  abbrev is_nonempty : Doc F → Bool
  is_nonempty [] = false
  is_nonempty (_ ∷ _) = true

  -- `matches_arg item` is `Matches(item, asMap(arg))`, and `matches_value` is
  -- `matchValue(got, exists, arg)`.
  unfoldable pub test_operator :
      Operator → Option (Value F) → Value F → (Doc F → Bool) → (Unit {0} → Bool) → Bool
  unfolding mod_case
  test_operator Operator.eq found arg matches_arg matches_value = is_value found arg
  test_operator Operator.ne found arg matches_arg matches_value = not (is_value found arg)
  test_operator Operator.gt found arg matches_arg matches_value =
      found_and found (λ got. is_gt (compare got arg))
  test_operator Operator.gte found arg matches_arg matches_value =
      found_and found (λ got. is_ge (compare got arg))
  test_operator Operator.lt found arg matches_arg matches_value =
      found_and found (λ got. is_lt (compare got arg))
  test_operator Operator.lte found arg matches_arg matches_value =
      found_and found (λ got. is_le (compare got arg))
  test_operator Operator.one_of found arg matches_arg matches_value =
      any (value_equals (or_nil found)) (as_array arg)
  test_operator Operator.none_of found arg matches_arg matches_value =
      all (λ item. not (value_equals (or_nil found) item)) (as_array arg)
  test_operator Operator.exists found arg matches_arg matches_value =
      if truthy arg then is_some found else not (is_some found)
  test_operator Operator.regex found arg matches_arg matches_value =
      no_match_is_false (go.matches_regexp (sprint arg) (sprint (or_nil found)))
  test_operator Operator.contains_all found arg matches_arg matches_value =
      all (array_contains (or_nil found)) (as_array arg)
  test_operator Operator.size found arg matches_arg matches_value =
      eqb_ℤ (pos (length (as_array (or_nil found)))) (int_value arg)
  test_operator Operator.elem_match found arg matches_arg matches_value =
      any (λ item. is_nonempty (as_map item) && matches_arg (as_map item)) (as_array (or_nil found))
  test_operator Operator.negate found arg matches_arg matches_value = not (matches_value tt)
  test_operator Operator.mod_test found arg matches_arg matches_value =
      mod_case (or_nil found) (as_array arg)
  test_operator Operator.type_test found arg matches_arg matches_value =
      matches_type (or_nil found) (sprint arg)
  test_operator Operator.ignored found arg matches_arg matches_value = true
  test_operator Operator.unknown found arg matches_arg matches_value = false
