-- ===== src/Mql/Compare.antt =====
-- internal/mql/mql.go: numbers, equality and the order of values (`ToFloat`, `isNumber`, `equal`,
-- `compare`, `valueEquals`, `arrayContains`, `addNumbers`).
pub mod Laws
use Prim.Native.Nat.{Ordering}
use text.Mathlib.Text.{◌==◌}
use timongo.Prelude.{String, Bool, true, false, List, if◌then◌else◌, ◌&&◌, ◌||◌, any}
use timongo.Prelude.Int.{ℤ, pos}
use timongo.Prelude.Text.{compare_text, print_ℤ}
use timongo.Value.{Value, null, bool, int, int32, int64, float32, float64, str, as_array}
use timongo.Go.{Go}

module _ {F : Type 0} where
  unfoldable pub is_number : Value F → Bool
  is_number (int n) = true
  is_number (int32 n) = true
  is_number (int64 n) = true
  is_number (float32 x) = true
  is_number (float64 x) = true
  is_number _ = false

module _ {F : Type 0} ⦃go : Go F⦄ where
  unfoldable pub to_float : Value F → F
  to_float (int n) = go.of_int n
  to_float (int32 n) = go.of_int n
  to_float (int64 n) = go.of_int n
  to_float (float32 x) = x
  to_float (float64 x) = x
  to_float _ = go.of_int (pos 0)

  -- `fmt.Sprint(v)`: the basic types by clauses, the others as the driver prints them.
  unfoldable pub sprint : Value F → String
  sprint null = "<nil>"
  sprint (bool true) = "true"
  sprint (bool false) = "false"
  sprint (int n) = print_ℤ n
  sprint (int32 n) = print_ℤ n
  sprint (int64 n) = print_ℤ n
  sprint (float32 x) = go.print_float32 x
  sprint (float64 x) = go.print_float64 x
  sprint (str s) = s
  sprint v = go.print_value v

  unfoldable pub equal : Value F → Value F → Bool
  unfolding is_number to_float sprint
  equal left right =
      if is_number left && is_number right
      then go.same (to_float left) (to_float right)
      else sprint left == sprint right

  -- The result -1, 0 or 1 of `compare`, as an `Ordering`.
  unfoldable pub compare_floats : F → F → Ordering
  compare_floats l r =
      if go.less l r then Ordering.lt else if go.less r l then Ordering.gt else Ordering.eq

  unfoldable pub compare : Value F → Value F → Ordering
  unfolding compare_floats
  compare left right =
      if is_number left && is_number right
      then compare_floats (to_float left) (to_float right)
      else compare_text (sprint left) (sprint right)

  unfoldable pub value_equals : Value F → Value F → Bool
  value_equals got want = any (λ item. equal item want) (as_array got) || equal got want

  unfoldable pub array_contains : Value F → Value F → Bool
  array_contains array item = any (λ candidate. equal candidate item) (as_array array)

  unfoldable pub add_numbers : Value F → Value F → Value F
  add_numbers left right =
      if is_number left then float64 (go.plus (to_float left) (to_float right)) else right

-- The tests `cmp < 0`, `cmp > 0`, `cmp <= 0` and `cmp >= 0`.
abbrev pub is_lt : Ordering → Bool
is_lt Ordering.lt = true
is_lt _ = false

abbrev pub is_gt : Ordering → Bool
is_gt Ordering.gt = true
is_gt _ = false

abbrev pub is_le : Ordering → Bool
is_le Ordering.gt = false
is_le _ = true

abbrev pub is_ge : Ordering → Bool
is_ge Ordering.lt = false
is_ge _ = true
