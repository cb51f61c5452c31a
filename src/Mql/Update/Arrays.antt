-- ===== src/Mql/Update/Arrays.antt =====
-- What the operators on arrays write.
use timongo.Prelude.{
  Bool-cases, inl, inr, ◌-◌, take, length-append, >>=-ok, String, true, false, List, [], ◌∷◌, ◌++◌,
  ◌≡◌, refl, ap, ◌∙◌, ok, arith, any, is_empty, length,
}
use timongo.Prelude.Int.{ℤ}
use timongo.Prelude.Text.{starts_with_dollar}
use timongo.Prelude.Dict.{insert, lookup-insert_self}
use timongo.Value.{Value, Doc, as_map, as_array, of_list}
use timongo.Value.Laws.{items-values}
use timongo.Go.{Go}
use timongo.Mql.Compare.{equal, array_contains}
use timongo.Mql.Sort.{is_negative}
use timongo.Mql.Update.Operators.{
  add_item, drop_last, UpdateOperator, update_operator, update_field, get,
}
use timongo.Mql.Update.{apply_fields, apply_update}
use timongo.Mql.Update.Effect.{one_operator, apply_update-one}

module _ {ℓ} {A : Type ℓ} where
  is_empty-append : (xs : List A) (x : A) → is_empty (xs ++ x ∷ []) ≡ false
  is_empty-append [] x = refl
  is_empty-append (y ∷ xs) x = refl

  take-append : (xs ys : List A) → take (length xs) (xs ++ ys) ≡ xs
  take-append [] ys = refl
  take-append (x ∷ xs) ys = ap (◌∷◌ x) (take-append xs ys)

  drop_last-append : (xs : List A) (x : A) → drop_last (xs ++ x ∷ []) ≡ xs
  drop_last-append xs x =
      let e : length (xs ++ x ∷ []) - 1 ≡ length xs = omega (arith, length-append xs (x ∷ [])) in
      rw e (take-append xs (x ∷ []))

module _ {F : Type 0} ⦃go : Go F⦄ where
  as_array-of_list : (xs : List (Value F)) → as_array (of_list xs) ≡ xs
  unfolding as_array
  as_array-of_list xs = items-values xs

  contains-of_list :
      (xs : List (Value F)) (v : Value F) → array_contains (of_list xs) v ≡ any (λ c. equal c v) xs
  unfolding array_contains
  contains-of_list xs v = rw (as_array-of_list xs) refl

  any-append_last :
      (xs : List (Value F)) (v : Value F)
      → equal v v ≡ true
      → any (λ c. equal c v) (xs ++ v ∷ []) ≡ true
  any-append_last [] v h = ground arith
  any-append_last (x ∷ xs) v h = ground (arith, any-append_last xs v h)

  -- The array that `$addToSet` writes contains the value, and takes it no second time.
  add_item-contains :
      (array value : Value F)
      → equal value value ≡ true
      → array_contains (of_list (add_item array value)) value ≡ true
  unfolding add_item
  add_item-contains array value reflexive =
      let xs = as_array array in
      elim (Bool-cases (array_contains (of_list xs) value)) [
        | inl h ↦ rw (h, h) refl
        | inr h ↦
            rw h (contains-of_list (xs ++ value ∷ []) value ∙ any-append_last xs value reflexive)
      ]

  add_item-again :
      (xs : List (Value F)) (value : Value F)
      → array_contains (of_list xs) value ≡ true
      → add_item (of_list xs) value ≡ xs
  unfolding add_item
  add_item-again xs value h = rw (as_array-of_list xs, h) refl

module _ {F : Type 0} where
  abbrev pub one_field : String → String → Value F → Doc F
  one_field op key value = one_operator op ((key, value) ∷ [])

module _ {F : Type 0} ⦃go : Go F⦄ (now : ℤ) where
  field-of_list-inserted :
      (key : String) (arr : List (Value F)) (d : Doc F)
      → as_array (get key (insert key (of_list arr) d)) ≡ arr
  unfolding as_array
  field-of_list-inserted key arr d = rw (lookup-insert_self key (of_list arr) d) (items-values arr)

  apply_fields-one :
      (op : UpdateOperator) (key : String) (value : Value F) (d : Doc F)
      → apply_fields now op ((key, value) ∷ []) d ≡ update_field now op key value d
  unfolding apply_fields
  apply_fields-one op key value d = >>=-ok (update_field now op key value d)

  update_field-push :
      (key : String) (value : Value F) (d : Doc F)
      → as_map value ≡ []
      → update_field now UpdateOperator.push key value d
        ≡ ok (insert key (of_list (as_array (get key d) ++ value ∷ [])) d)
  unfolding update_field
  update_field-push key value d plain = rw plain refl

  update_field-pop :
      (key : String) (value last : Value F) (arr : List (Value F)) (d : Doc F)
      → is_negative last ≡ false
      → as_array (get key d) ≡ arr ++ value ∷ []
      → update_field now UpdateOperator.pop key last d ≡ ok (insert key (of_list arr) d)
  unfolding update_field
  update_field-pop key value last arr d at_end e =
      rw (e, is_empty-append arr value, at_end, drop_last-append arr value) refl

  -- A `$push` of a plain value appends it, and a `$pop` at the end after it leaves the array with
  -- the items that it had. A field that is missing or is no array counts as an empty array.
  pub apply_update-push-pop :
      (d : Doc F) (key : String) (value last : Value F)
      → as_map value ≡ []
      → is_negative last ≡ false
      → (pushed : Doc F) × (popped : Doc F) × (apply_update now d (one_field "$push" key value)
          ≡ ok pushed)
        × (apply_update now pushed (one_field "$pop" key last) ≡ ok popped)
        × (as_array (get key pushed) ≡ as_array (get key d) ++ value ∷ [])
        × (as_array (get key popped) ≡ as_array (get key d))
  unfolding update_operator starts_with_dollar
  apply_update-push-pop d key value last plain at_end =
      let arr = as_array (get key d) in
      let pushed = insert key (of_list (arr ++ value ∷ [])) d in
      let held = field-of_list-inserted key (arr ++ value ∷ []) d in
      (
        pushed,
        insert key (of_list arr) pushed,
        apply_update-one now "$push" UpdateOperator.push ((key, value) ∷ []) d refl refl
            ∙ apply_fields-one UpdateOperator.push key value d
            ∙ update_field-push key value d plain,
        apply_update-one now "$pop" UpdateOperator.pop ((key, last) ∷ []) pushed refl refl
            ∙ apply_fields-one UpdateOperator.pop key last pushed
            ∙ update_field-pop key value last arr pushed at_end held,
        held,
        field-of_list-inserted key arr pushed,
      )

  add_to_set_once :
      (key : String) (value : Value F) (d : Doc F)
      → apply_update now d (one_field "$addToSet" key value)
        ≡ ok (insert key (of_list (add_item (get key d) value)) d)
  unfolding update_operator starts_with_dollar update_field
  add_to_set_once key value d =
      apply_update-one now "$addToSet" UpdateOperator.add_to_set ((key, value) ∷ []) d refl refl
      ∙ apply_fields-one UpdateOperator.add_to_set key value d

  -- After a `$addToSet` the array contains the value, if the value equals itself, and a second one
  -- leaves the array as the first did.
  pub apply_update-add_to_set :
      (d : Doc F) (key : String) (value : Value F)
      → equal value value ≡ true
      → (once : Doc F) × (twice : Doc F) × (apply_update now d (one_field "$addToSet" key value)
          ≡ ok once)
        × (apply_update now once (one_field "$addToSet" key value) ≡ ok twice)
        × (array_contains (get key once) value ≡ true)
        × (get key twice ≡ get key once)
  unfolding update_operator starts_with_dollar
  apply_update-add_to_set d key value reflexive =
      let arr = add_item (get key d) value in
      let once = insert key (of_list arr) d in
      let held : get key once ≡ of_list arr = rw (lookup-insert_self key (of_list arr) d) in
      let contained = add_item-contains (get key d) value reflexive in
      (
        once,
        insert key (of_list arr) once,
        add_to_set_once key value d,
        add_to_set_once key value once
            ∙ ap (λ (a : List (Value F)). ok (insert key (of_list a) once))
                (ap (λ (a : Value F). add_item a value) held ∙ add_item-again arr value contained),
        rw held contained,
        rw (held, lookup-insert_self key (of_list arr) once) refl,
      )
