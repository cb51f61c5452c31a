-- ===== src/Mql/Compare/Laws.antt =====
-- `compare` is antisymmetric, and agrees with `equal` on what is no pair of numbers.
use timongo.Prelude.{◌≡◌, ◌↔◌, true, false, ◌&&◌, arith, eq_iff}
use timongo.Prelude.Text.{compare_text_flip, compare_text_eq, flip_order}
use timongo.Value.{Value}
use timongo.Go.{Go, IsOrdered}
use Prim.Native.Nat.{Ordering}
use timongo.Mql.Compare.{is_number, to_float, sprint, equal, compare_floats, compare}

module _ {F : Type 0} ⦃go : Go F⦄ (ordered_floats : IsOrdered go) where
  compare_floats_flip : (x y : F) → compare_floats x y ≡ flip_order (compare_floats y x)
  unfolding compare_floats
  compare_floats_flip x y =
      ground (arith, ordered_floats.less_asymm x y, ordered_floats.less_asymm y x)

  -- If the floats are ordered, swapping the two values turns the answer of `compare` round.
  pub compare_flip : (v w : Value F) → compare v w ≡ flip_order (compare w v)
  unfolding compare
  compare_flip v w = ground (
    arith,
    compare_floats_flip (to_float v) (to_float w),
    compare_text_flip (sprint v) (sprint w),
  )

module _ {F : Type 0} ⦃go : Go F⦄ where
  -- If not both values are numbers, `compare` says equal exactly when `equal` does.
  pub compare-eq_iff :
      (v w : Value F)
      → (is_number v && is_number w) ≡ false
      → (compare v w ≡ Ordering.eq) ↔ (equal v w ≡ true)
  unfolding compare equal
  compare-eq_iff v w h =
      ground (arith, compare_text_eq (sprint v) (sprint w), eq_iff (sprint v) (sprint w))
