-- ===== src/Mql/Update/Operators.antt =====
-- internal/mql/mql.go: what one entry of an operator's body does to the document, the inner loops
-- of `ApplyUpdate`.
use text.Mathlib.Text.{◌==◌}
use timongo.Prelude.{
  String, Bool, not, List, [], ◌∷◌, ◌++◌, Option, none, some, ◌-◌, ◌^◌, ℕ, suc, if◌then◌else◌,
  Result, ok, panic, filter, length, take, drop, ltb, leb, is_empty, ◌>>=◌,
}
use timongo.Prelude.Int.{ℤ, pos, negsuc}
use timongo.Prelude.Dict.{lookup, insert, remove, has}
use timongo.Value.{Value, float64, int32, date_time, Doc, as_map, as_array, of_list}
use timongo.Go.{Go}
use timongo.Mql.Compare.{
  to_float, sprint, compare, value_equals, array_contains, add_numbers, is_lt, is_gt,
}
use timongo.Mql.Path.{or_nil}
use timongo.Mql.Match.Operators.{int_value}
use timongo.Mql.Sort.{sort_stable, is_negative, before}

pub data UpdateOperator : Type 0 where
  set inc mul set_min set_max rename unset current_date add_to_set push pull pop bit :
      UpdateOperator

unfoldable pub update_operator : String → Option UpdateOperator
update_operator op =
    if op == "$set"
    then some UpdateOperator.set
    else if op == "$inc"
    then some UpdateOperator.inc
    else if op == "$mul"
    then some UpdateOperator.mul
    else if op == "$min"
    then some UpdateOperator.set_min
    else if op == "$max"
    then some UpdateOperator.set_max
    else if op == "$rename"
    then some UpdateOperator.rename
    else if op == "$unset"
    then some UpdateOperator.unset
    else if op == "$currentDate"
    then some UpdateOperator.current_date
    else if op == "$addToSet"
    then some UpdateOperator.add_to_set
    else if op == "$push"
    then some UpdateOperator.push
    else if op == "$pull"
    then some UpdateOperator.pull
    else if op == "$pop"
    then some UpdateOperator.pop
    else if op == "$bit"
    then some UpdateOperator.bit
    else none

-- `-n` for the least `int64` is n again: it is `negsuc` of this number.
abbrev pub min_int64_pred : ℕ
min_int64_pred = 2 ^ 63 - 1

module _ {ℓ} {A : Type ℓ} where
  abbrev pub drop_last : List A → List A
  drop_last xs = take (length xs - 1) xs

  -- `$slice`: the first `n` items, or the last `-n`. For the least integer `-n` is `n` again, the
  -- test passes, and the slice's bound is negative.
  unfoldable pub slice_items : ℤ → List A → Result (List A)
  slice_items (pos n) arr = ok (if ltb n (length arr) then take n arr else arr)
  slice_items (negsuc m) arr =
      if leb min_int64_pred m
      then panic
      else ok (if ltb (suc m) (length arr) then drop (length arr - suc m) arr else arr)

module _ {F : Type 0} ⦃go : Go F⦄ where
  -- `doc[key]`, nil for a missing key
  abbrev pub get : String → Doc F → Value F
  get key d = or_nil (lookup key d)

  abbrev sort_pushed : Option (Value F) → List (Value F) → List (Value F)
  sort_pushed none arr = arr
  sort_pushed (some dir) arr = sort_stable (before (is_negative dir)) arr

  abbrev slice_pushed : Option (Value F) → List (Value F) → Result (List (Value F))
  slice_pushed none arr = ok arr
  slice_pushed (some n) arr = slice_items (int_value n) arr

  -- `$push` of a value, or of a document with `$each`, `$sort` and `$slice`.
  unfoldable pub push_items : Value F → List (Value F) → Result (List (Value F))
  unfolding slice_items
  push_items value arr =
      let spec = as_map value in
      if is_empty spec
      then ok (arr ++ value ∷ [])
      else slice_pushed (lookup "$slice" spec)
          (sort_pushed (lookup "$sort" spec) (arr ++ as_array (get "$each" spec)))

  unfoldable pub add_item : Value F → Value F → List (Value F)
  add_item array value =
      if array_contains (of_list (as_array array)) value
      then as_array array
      else as_array array ++ value ∷ []

  abbrev bit_step : (ℤ → ℤ → ℤ) → Option (Value F) → ℤ → ℤ
  bit_step op none current = current
  bit_step op (some raw) current = op current (go.to_int32 (to_float raw))

  unfoldable pub bit_value : Doc F → Value F → ℤ
  bit_value spec old = bit_step go.xor32 (lookup "xor" spec) (
      bit_step go.and32 (lookup "and" spec)
        (bit_step go.or32 (lookup "or" spec) (go.to_int32 (to_float old))))

  abbrev pub rename_found : Option (Value F) → String → String → Doc F → Doc F
  rename_found none from to d = d
  rename_found (some value) from to d = remove from (insert to value d)

  -- `$min` and `$max` write where the field is missing or the test passes.
  abbrev pub write_if : Bool → String → Value F → Doc F → Doc F
  write_if test key value d =
      if not (has key d) then insert key value d else if test then insert key value d else d

  unfoldable pub update_field : ℤ → UpdateOperator → String → Value F → Doc F → Result (Doc F)
  unfolding push_items add_item bit_value
  update_field now UpdateOperator.set key value d = ok (insert key value d)
  update_field now UpdateOperator.inc key value d =
      ok (insert key (add_numbers (get key d) value) d)
  update_field now UpdateOperator.mul key value d =
      ok (insert key (float64 (go.times (to_float (get key d)) (to_float value))) d)
  update_field now UpdateOperator.set_min key value d =
      ok (write_if (is_lt (compare value (get key d))) key value d)
  update_field now UpdateOperator.set_max key value d =
      ok (write_if (is_gt (compare value (get key d))) key value d)
  update_field now UpdateOperator.rename key value d =
      ok (rename_found (lookup key d) key (sprint value) d)
  update_field now UpdateOperator.unset key value d = ok (remove key d)
  update_field now UpdateOperator.current_date key value d = ok (insert key (date_time now) d)
  update_field now UpdateOperator.add_to_set key value d =
      ok (insert key (of_list (add_item (get key d) value)) d)
  update_field now UpdateOperator.push key value d = do
    arr ← push_items value (as_array (get key d))
    ok (insert key (of_list arr) d)
  update_field now UpdateOperator.pull key value d = ok (
      insert key (of_list (filter (λ item. not (value_equals item value)) (as_array (get key d))))
        d)
  update_field now UpdateOperator.pop key value d =
      let arr = as_array (get key d) in
      if is_empty arr
      then ok d
      else ok (insert key (of_list (if is_negative value then drop 1 arr else drop_last arr)) d)
  update_field now UpdateOperator.bit key value d =
      ok (insert key (int32 (bit_value (as_map value) (get key d))) d)
