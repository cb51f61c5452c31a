-- ===== src/Mql/Update.antt =====
-- internal/mql/mql.go: `ApplyUpdate`. The code mutates the document that it is given, which each
-- caller has just cloned and throws away on an error; here the new document is the result.
-- `time.Now` is the argument `now`, in milliseconds.
pub mod Operators
pub mod Frame
pub mod Effect
pub mod Replace
pub mod Arrays
use timongo.Prelude.{
  String, Bool, List, [], ◌∷◌, Option, none, some, any, if◌then◌else◌, Result, ok, err,
  unsupported_update, ◌>>=◌, is_empty,
}
use timongo.Prelude.Int.{ℤ}
use timongo.Prelude.Text.{starts_with_dollar}
use timongo.Prelude.Dict.{lookup, insert, has}
use timongo.Value.{Value, null, Doc, as_map}
use timongo.Go.{Go}
use timongo.Mql.Update.Operators.{UpdateOperator, update_operator, update_field}

module _ {F : Type 0} ⦃go : Go F⦄ (now : ℤ) where
  -- One operator's loop over its body.
  unfoldable pub apply_fields : UpdateOperator → Doc F → Doc F → Result (Doc F)
  apply_fields op [] d = ok d
  apply_fields op ((key, value) ∷ body) d = do
    d' ← update_field now op key value d
    apply_fields op body d'

  abbrev pub apply_known : Option UpdateOperator → String → Value F → Doc F → Result (Doc F)
  apply_known none op raw d = err (unsupported_update op)
  apply_known (some known) op raw d = apply_fields known (as_map raw) d

  -- One round of the loop over the update.
  unfoldable pub apply_operator : String → Value F → Doc F → Result (Doc F)
  apply_operator op raw d = apply_known (update_operator op) op raw d

  unfoldable pub apply_operators : Doc F → Doc F → Result (Doc F)
  apply_operators [] d = ok d
  apply_operators ((op, raw) ∷ rest) d = do d' ← apply_operator op raw d; apply_operators rest d'

module _ {F : Type 0} where
  unfoldable pub insert_all : Doc F → Doc F → Doc F
  insert_all [] d = d
  insert_all ((key, value) ∷ update) d = insert_all update (insert key value d)

  -- `if _, ok := doc["_id"]; !ok && id != nil { doc["_id"] = id }`
  abbrev pub restore_id : Option (Value F) → Doc F → Doc F
  restore_id none d = d
  restore_id (some null) d = d
  restore_id (some id) d = if has "_id" d then d else insert "_id" id d

  -- An update with no operator replaces the document, and keeps the `_id` if it has none.
  unfoldable pub replace_doc : Doc F → Doc F → Doc F
  unfolding insert_all
  replace_doc d update = restore_id (lookup "_id" d) (insert_all update [])

  unfoldable pub operator_style : Doc F → Bool
  operator_style update = any (λ e. starts_with_dollar e.0) update

module _ {F : Type 0} ⦃go : Go F⦄ (now : ℤ) where
  -- `ApplyUpdate(doc, update)`
  unfoldable pub apply_update : Doc F → Doc F → Result (Doc F)
  unfolding operator_style replace_doc apply_operators apply_operator
  apply_update d update =
      if is_empty update
      then ok d
      else if operator_style update
      then apply_operators now update d
      else ok (replace_doc d update)
