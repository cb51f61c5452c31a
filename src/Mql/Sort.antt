-- ===== src/Mql/Sort.antt =====
-- `sort.SliceStable`, as the stable insertion sort, and `sortDocs` of internal/mql/mql.go.
--
-- For a strict weak order a stable sort has one result, and `sort_stable` is then what Go returns.
-- `compare` is none on a field with numbers and texts in it, where Go may return another
-- permutation.
pub mod Laws
use text.Mathlib.Text.{◌==◌}
use timongo.Prelude.{Bool, List, [], ◌∷◌, if◌then◌else◌, String}
use timongo.Prelude.Int.{pos}
use timongo.Value.{Value, Doc}
use timongo.Go.{Go}
use timongo.Mql.Compare.{to_float, compare, is_lt, is_gt}
use timongo.Mql.Path.{value_by_path, or_nil}

module _ {ℓ} {A : Type ℓ} (less : A → A → Bool) where
  -- In front of the first element that is not less.
  insert_stable : A → List A → List A
  insert_stable x [] = x ∷ []
  insert_stable x (y ∷ ys) = if less y x then y ∷ insert_stable x ys else x ∷ y ∷ ys

  unfoldable pub sort_stable : List A → List A
  unfolding insert_stable
  sort_stable [] = []
  sort_stable (x ∷ xs) = insert_stable x (sort_stable xs)

module _ {F : Type 0} ⦃go : Go F⦄ where
  -- `ToFloat(v) < 0`
  abbrev pub is_negative : Value F → Bool
  is_negative v = go.less (to_float v) (go.of_int (pos 0))

  -- The comparison of the two sorts of the file: descending or ascending.
  abbrev pub before : Bool → Value F → Value F → Bool
  before desc v w = if desc then is_gt (compare v w) else is_lt (compare v w)

  -- The comparison of two documents at a field.
  unfoldable pub doc_before : String → Bool → Doc F → Doc F → Bool
  doc_before field desc d e =
      before desc (or_nil (value_by_path d field)) (or_nil (value_by_path e field))

  -- The loop over the specification ends in its first round.
  unfoldable pub sort_docs : List (Doc F) → Doc F → List (Doc F)
  unfolding doc_before
  sort_docs ds [] = ds
  sort_docs ds ((field, dir) ∷ _) =
      if field == "$natural" then ds else sort_stable (doc_before field (is_negative dir)) ds
