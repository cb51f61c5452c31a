-- ===== src/Mql/Update/Effect.antt =====
-- What `$set` and `$unset` write.
use timongo.Prelude.{
  eq_iff, >>=-ok, String, true, [], ◌∷◌, ◌≡◌, refl, ◌∙◌, ok, arith, none, some, if◌then◌else◌,
}
use timongo.Prelude.Int.{ℤ}
use timongo.Prelude.Text.{starts_with_dollar}
use timongo.Prelude.Dict.{lookup, insert, remove, has, lookup-insert, lookup-remove, IsMap, or_else}
use timongo.Value.{Doc, as_map, of_doc}
use timongo.Value.Laws.{entries-fields}
use timongo.Go.{Go}
use timongo.Mql.Update.Operators.{UpdateOperator, update_operator, update_field}
use timongo.Mql.Update.{apply_fields, apply_update, insert_all}

module _ {F : Type 0} where
  lookup-insert_all :
      (k : String) (update d : Doc F)
      → IsMap update
      → lookup k (insert_all update d) ≡ or_else (lookup k update) (lookup k d)
  unfolding insert_all lookup
  lookup-insert_all k [] d m = refl
  lookup-insert_all k ((j, v) ∷ update) d m =
      lookup-insert_all k update (insert j v d) m.1
      ∙ ground (arith, lookup-insert j k v d, eq_iff j k)

  pub lookup-inserted :
      (k : String) (update : Doc F)
      → IsMap update
      → lookup k (insert_all update []) ≡ lookup k update
  unfolding lookup
  lookup-inserted k update m = lookup-insert_all k update [] m ∙ ground arith

  -- One operator with its body.
  abbrev pub one_operator : String → Doc F → Doc F
  one_operator op body = (op, of_doc body) ∷ []

module _ {F : Type 0} ⦃go : Go F⦄ (now : ℤ) where
  apply_fields-set :
      (body d : Doc F) → apply_fields now UpdateOperator.set body d ≡ ok (insert_all body d)
  unfolding apply_fields update_field insert_all
  apply_fields-set [] d = refl
  apply_fields-set ((k, v) ∷ body) d = apply_fields-set body (insert k v d)

  -- An update with one operator runs that operator's loop.
  pub apply_update-one :
      (op : String) (known : UpdateOperator) (body d : Doc F)
      → starts_with_dollar op ≡ true
      → update_operator op ≡ some known
      → apply_update now d (one_operator op body) ≡ apply_fields now known body d
  unfolding apply_update as_map
  apply_update-one op known body d dollar e =
      rw (dollar, e, entries-fields body) (>>=-ok (apply_fields now known body d))

  -- `$set` with a body that names no field twice succeeds: a field of the body has the body's value
  -- after it, and any other field the value that it had.
  pub apply_update-set :
      (d body : Doc F)
      → IsMap body
      → (d' : Doc F) × (apply_update now d (one_operator "$set" body) ≡ ok d')
        × ((k : String) → lookup k d' ≡ or_else (lookup k body) (lookup k d))
  unfolding update_operator starts_with_dollar
  apply_update-set d body m = (
    insert_all body d,
    apply_update-one "$set" UpdateOperator.set body d refl refl ∙ apply_fields-set body d,
    λ k. lookup-insert_all k body d m,
  )

  remove_all : Doc F → Doc F → Doc F
  remove_all [] d = d
  remove_all ((k, v) ∷ body) d = remove_all body (remove k d)

  apply_fields-unset :
      (body d : Doc F) → apply_fields now UpdateOperator.unset body d ≡ ok (remove_all body d)
  unfolding apply_fields update_field remove_all
  apply_fields-unset [] d = refl
  apply_fields-unset ((k, v) ∷ body) d = apply_fields-unset body (remove k d)

  lookup-remove_all :
      (k : String) (body d : Doc F)
      → lookup k (remove_all body d) ≡ (if has k body then none else lookup k d)
  unfolding remove_all lookup
  lookup-remove_all k [] d = refl
  lookup-remove_all k ((j, v) ∷ body) d =
      lookup-remove_all k body (remove j d) ∙ ground (arith, lookup-remove j k d, eq_iff j k)

  -- `$unset` succeeds: the fields of its body are gone, and every other field is as it was.
  pub apply_update-unset :
      (d body : Doc F)
      → (d' : Doc F) × (apply_update now d (one_operator "$unset" body) ≡ ok d')
        × ((k : String) → lookup k d' ≡ (if has k body then none else lookup k d))
  unfolding update_operator starts_with_dollar
  apply_update-unset d body = (
    remove_all body d,
    apply_update-one "$unset" UpdateOperator.unset body d refl refl ∙ apply_fields-unset body d,
    λ k. lookup-remove_all k body d,
  )
