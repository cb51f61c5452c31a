-- ===== src/Mql/Update/Replace.antt =====
-- What a replacement leaves of a document.
use timongo.Prelude.{
  Bool-cases, inl, inr, eq_iff, String, false, [], ◌≡◌, refl, ap, ◌∙◌, ok, arith, Option, none,
  some, is_empty, if◌then◌else◌,
}
use text.Mathlib.Text.{◌==◌}
use timongo.Prelude.Int.{ℤ}
use timongo.Prelude.Dict.{lookup, insert, has, lookup-insert_ne, lookup-insert_self, IsMap, or_else}
use timongo.Value.{Value, null, Doc}
use timongo.Go.{Go}
use timongo.Mql.Update.{apply_update, operator_style, insert_all, restore_id, replace_doc}
use timongo.Mql.Update.Effect.{lookup-inserted}

module _ {F : Type 0} where
  insert_missing_self :
      (k : String) (v : Value F) (e : Doc F)
      → lookup k (if has k e then e else insert k v e) ≡ or_else (lookup k e) (some v)
  insert_missing_self k v e = ground (arith, lookup-insert_self k v e)

  insert_missing_ne :
      (k j : String) (v : Value F) (e : Doc F)
      → (k == j) ≡ false
      → lookup j (if has k e then e else insert k v e) ≡ lookup j e
  insert_missing_ne k j v e h = ground (arith, lookup-insert_ne k j v e h)

  -- The `_id` that a replacement leaves: its own, or else the old one, unless that is nil.
  abbrev pub kept_id : Option (Value F) → Option (Value F)
  kept_id none = none
  kept_id (some null) = none
  kept_id (some v) = some v

  restore_id-id :
      (old : Option (Value F)) (e : Doc F)
      → lookup "_id" (restore_id old e) ≡ or_else (lookup "_id" e) (kept_id old)
  restore_id-id none e = ground arith
  restore_id-id (some null) e = ground arith
  restore_id-id (some v) e = insert_missing_self "_id" _ e

  restore_id-ne :
      (old : Option (Value F)) (k : String) (e : Doc F)
      → ("_id" == k) ≡ false
      → lookup k (restore_id old e) ≡ lookup k e
  restore_id-ne none k e h = refl
  restore_id-ne (some null) k e h = refl
  restore_id-ne (some v) k e h = insert_missing_ne "_id" k _ e h

module _ {F : Type 0} ⦃go : Go F⦄ (now : ℤ) where
  lookup-replaced :
      (d update : Doc F)
      → IsMap update
      → (k : String)
      → lookup k (restore_id (lookup "_id" d) (insert_all update [])) ≡ (
          if "_id" == k
          then or_else (lookup "_id" update) (kept_id (lookup "_id" d))
          else lookup k update)
  lookup-replaced d update m k = elim (Bool-cases ("_id" == k)) [
    | inl same ↦ rw (← (eq_iff "_id" k).0 same) (
        restore_id-id (lookup "_id" d) (insert_all update [])
        ∙ ap (λ o. or_else o (kept_id (lookup "_id" d))) (lookup-inserted "_id" update m))
    | inr other ↦
        rw other (
          restore_id-ne (lookup "_id" d) k (insert_all update []) other
          ∙ lookup-inserted k update m)
  ]

  -- An update that is not empty, names no operator and names no field twice replaces the document:
  -- every field but `_id` is the update's, and `_id` is the update's if it has one and otherwise the
  -- document's, except that a nil `_id` is dropped.
  pub apply_update-replace :
      (d update : Doc F)
      → IsMap update
      → is_empty update ≡ false
      → operator_style update ≡ false
      → (d' : Doc F) × (apply_update now d update ≡ ok d')
        × ((k : String)
            → lookup k d' ≡ (
                if "_id" == k
                then or_else (lookup "_id" update) (kept_id (lookup "_id" d))
                else lookup k update))
  unfolding apply_update replace_doc
  apply_update-replace d update m nonempty style =
      (replace_doc d update, rw (nonempty, style) refl, lookup-replaced d update m)
