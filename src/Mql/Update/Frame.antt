-- ===== src/Mql/Update/Frame.antt =====
-- An update with operators leaves every field that it does not name as it was.
use text.Mathlib.Text.{◌==◌}
use timongo.Prelude.{
  String, Bool, true, false, List, [], ◌∷◌, ◌≡◌, refl, ◌∙◌, Result, ok, err, panic, ◌>>=◌, ◌||◌,
  arith, Option, none, some, any, is_empty, if◌then◌else◌,
}
use timongo.Prelude.Int.{ℤ}
use timongo.Prelude.Dict.{lookup, insert, lookup-insert_ne, lookup-remove_ne}
use timongo.Value.{of_list, Value, Doc, as_map, as_array}
use timongo.Go.{Go}
use timongo.Mql.Compare.{sprint}
use timongo.Mql.Update.Operators.{
  UpdateOperator, update_operator, update_field, push_items, rename_found, write_if, get,
}
use timongo.Mql.Update.{
  apply_fields, apply_known, apply_operator, apply_operators, apply_update, operator_style,
}

module _ {F : Type 0} ⦃go : Go F⦄ where
  -- The entry `key: value` of an operator's body names the field `k`.
  abbrev pub names_field : String → UpdateOperator → String → Value F → Bool
  names_field k UpdateOperator.rename key value = key == k || sprint value == k
  names_field k op key value = key == k

  abbrev names_in_body : String → Option UpdateOperator → Doc F → Bool
  names_in_body k none body = false
  names_in_body k (some op) body = any (λ e. names_field k op e.0 e.1) body

  -- The update names the field.
  abbrev pub mentions : String → Doc F → Bool
  mentions k update = any (λ e. names_in_body k (update_operator e.0) (as_map e.1)) update

module _ {F : Type 0} (k : String) (d : Doc F) where
  -- If there is a result, its field `k` is that of `d`.
  abbrev KeepsField : Result (Doc F) → Type 0
  KeepsField (ok d') = lookup k d' ≡ lookup k d
  KeepsField (err e) = Unit {0}
  KeepsField panic = Unit {0}

  KeepsField-bind :
      (m : Result (Doc F)) (f : Doc F → Result (Doc F))
      → KeepsField m
      → ((d' : Doc F) → lookup k d' ≡ lookup k d → KeepsField (f d'))
      → KeepsField (m >>= f)
  KeepsField-bind (ok d') f h next = next d' h
  KeepsField-bind (err e) f h next = tt
  KeepsField-bind panic f h next = tt

  KeepsField-ok :
      (m : Result (Doc F)) (d' : Doc F) → KeepsField m → m ≡ ok d' → lookup k d' ≡ lookup k d
  KeepsField-ok m d' h e = rw e at h

  items_written :
      (m : Result (List (Value F))) (key : String) (e : Doc F)
      → (key == k) ≡ false
      → lookup k e ≡ lookup k d
      → KeepsField (do arr ← m; ok (insert key (of_list arr) e))
  items_written (ok arr) key e h same = lookup-insert_ne key k (of_list arr) e h ∙ same
  items_written (err x) key e h same = tt
  items_written panic key e h same = tt

  if_written :
      (test : Bool) (key : String) (v : Value F)
      → (key == k) ≡ false
      → KeepsField (if test then ok d else ok (insert key v d))
  if_written true key v h = refl
  if_written false key v h = lookup-insert_ne key k v d h

module _ {F : Type 0} (k : String) where
  kept_on :
      (d d' : Doc F) (m : Result (Doc F))
      → lookup k d' ≡ lookup k d
      → KeepsField k d' m
      → KeepsField k d m
  kept_on d d' (ok e) same h = h ∙ same
  kept_on d d' (err x) same h = tt
  kept_on d d' panic same h = tt

module _ {F : Type 0} ⦃go : Go F⦄ (now : ℤ) (k : String) where
  rename_found-frame :
      (o : Option (Value F)) (from to : String) (d : Doc F)
      → (from == k) ≡ false
      → (to == k) ≡ false
      → lookup k (rename_found o from to d) ≡ lookup k d
  rename_found-frame none from to d p q = refl
  rename_found-frame (some v) from to d p q =
      lookup-remove_ne from k (insert to v d) p ∙ lookup-insert_ne to k v d q

  write_if-frame :
      (test : Bool) (key : String) (value : Value F) (d : Doc F)
      → (key == k) ≡ false
      → lookup k (write_if test key value d) ≡ lookup k d
  write_if-frame test key value d p = ground (arith, lookup-insert_ne key k value d p)

  update_field-frame :
      (op : UpdateOperator) (key : String) (value : Value F) (d : Doc F)
      → names_field k op key value ≡ false
      → KeepsField k d (update_field now op key value d)
  unfolding update_field
  update_field-frame UpdateOperator.rename key value d h =
      rename_found-frame (lookup key d) key (sprint value) d (ground arith) (ground arith)
  update_field-frame UpdateOperator.set_min key value d h = write_if-frame _ key value d h
  update_field-frame UpdateOperator.set_max key value d h = write_if-frame _ key value d h
  update_field-frame UpdateOperator.unset key value d h = lookup-remove_ne key k d h
  update_field-frame UpdateOperator.push key value d h =
      items_written k d (push_items value (as_array (get key d))) key d h refl
  update_field-frame UpdateOperator.pop key value d h =
      if_written k d (is_empty (as_array (get key d))) key _ h
  update_field-frame _ key value d h = lookup-insert_ne key k _ d h

  apply_fields-frame :
      (op : UpdateOperator) (body d : Doc F)
      → any (λ e. names_field k op e.0 e.1) body ≡ false
      → KeepsField k d (apply_fields now op body d)
  unfolding apply_fields
  apply_fields-frame op [] d h = refl
  apply_fields-frame op ((key, value) ∷ body) d h =
      KeepsField-bind k d (update_field now op key value d) (apply_fields now op body)
        (update_field-frame op key value d (ground arith))
        λ d' same. kept_on k d d' _ same (apply_fields-frame op body d' (ground arith))

  apply_known-frame :
      (known : Option UpdateOperator) (op : String) (raw : Value F) (d : Doc F)
      → names_in_body k known (as_map raw) ≡ false
      → KeepsField k d (apply_known now known op raw d)
  apply_known-frame none op raw d h = tt
  apply_known-frame (some known) op raw d h = apply_fields-frame known (as_map raw) d h

  apply_operators-frame :
      (update d : Doc F) → mentions k update ≡ false → KeepsField k d (apply_operators now update d)
  unfolding apply_operators apply_operator
  apply_operators-frame [] d h = refl
  apply_operators-frame ((op, raw) ∷ update) d h =
      KeepsField-bind k d (apply_known now (update_operator op) op raw d)
        (apply_operators now update)
        (apply_known-frame (update_operator op) op raw d (ground arith))
        λ d' same. kept_on k d d' _ same (apply_operators-frame update d' (ground arith))

  -- If an update with operators succeeds and names a field nowhere, neither as a key nor as the
  -- target of a `$rename`, the field is as it was: there with the same value, or missing.
  pub apply_update-frame :
      (d d' update : Doc F)
      → operator_style update ≡ true
      → mentions k update ≡ false
      → apply_update now d update ≡ ok d'
      → lookup k d' ≡ lookup k d
  unfolding apply_update
  apply_update-frame d d' [] style h e = cc
  apply_update-frame d d' (entry ∷ update) style h e =
      KeepsField-ok k d (apply_operators now (entry ∷ update) d) d'
        (apply_operators-frame (entry ∷ update) d h) (rw style at e)
