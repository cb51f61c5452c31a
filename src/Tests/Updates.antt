-- ===== src/Tests/Updates.antt =====
-- The theorems of internal/mql/mql.go about updates, at concrete inputs.
use text.Mathlib.Text.{◌==◌}
use timongo.Prelude.{String, true, [], ◌∷◌, ◌++◌, none, if◌then◌else◌, ◌≡◌, refl, ok}
use timongo.Prelude.Int.{ℤ, pos}
use timongo.Prelude.Dict.{lookup, insert}
use timongo.Value.{Doc, as_map}
use timongo.Mql.Update.{apply_update, operator_style}
use timongo.Mql.Update.Operators.{get}
use timongo.Mql.Update.Frame.{apply_update-frame}
use timongo.Mql.Update.Effect.{one_operator}
use timongo.Mql.Update.Replace.{kept_id, apply_update-replace}
use timongo.Prelude.Dict.{or_else}
use timongo.Tests.{num, whole, item}

abbrev now : ℤ
now = pos 1000

abbrev body : Doc ℤ
body = ("n", num 9) ∷ []

apply_update-frame_example :
    lookup "_id" (insert "n" (num 9) (item "a" 3)) ≡ lookup "_id" (item "a" 3)
unfolding apply_update operator_style insert timongo.Prelude.Text.starts_with_dollar
    timongo.Mql.Update.Operators.update_operator as_map timongo.Mql.Update.apply_fields
    timongo.Mql.Update.Operators.update_field
apply_update-frame_example =
    apply_update-frame now "_id" (item "a" 3) (insert "n" (num 9) (item "a" 3))
      (one_operator "$set" body) refl refl refl

-- A document without an `_id` takes the place of one with.
apply_update-replace_example :
    (d' : Doc ℤ) × (apply_update now (item "a" 3) body ≡ ok d')
    × ((k : String)
        → lookup k d' ≡ (
            if "_id" == k
            then or_else (lookup "_id" body) (kept_id (lookup "_id" (item "a" 3)))
            else lookup k body))
unfolding lookup operator_style timongo.Prelude.Text.starts_with_dollar
apply_update-replace_example = apply_update-replace now (item "a" 3) body (refl, tt) refl refl
