-- ===== src/Mql/Sort/Laws.antt =====
-- A sort permutes, and leaves no element less than the one before it.
use mathlib.Core.List.{Permᴰ}
use text.Mathlib.Text.{◌==◌}
use timongo.Prelude.{
  perm_refl, Bool, true, false, List, [], ◌∷◌, ◌≡◌, refl, arith, Bool-cases, inl, inr, String,
}
use timongo.Value.{Value, Doc}
use timongo.Go.{Go, IsOrdered}
use timongo.Mql.Compare.Laws.{compare_flip}
use timongo.Mql.Path.{value_by_path, or_nil}
use timongo.Mql.Sort.{insert_stable, sort_stable, doc_before, sort_docs, is_negative}

-- No element is less than the one before it.
module _ {ℓ} {A : Type ℓ} (less : A → A → Bool) where
  abbrev HeadFits : A → List A → Type 0
  HeadFits x [] = Unit {0}
  HeadFits x (y ∷ ys) = less y x ≡ false

  abbrev pub IsSorted : List A → Type 0
  IsSorted [] = Unit {0}
  IsSorted (x ∷ xs) = HeadFits x xs × IsSorted xs

  abbrev pub IsAsymmetric : Type ℓ
  IsAsymmetric = (x y : A) → less x y ≡ true → less y x ≡ false

module _ {ℓ} {A : Type ℓ} (less : A → A → Bool) where
  insert_stable-perm : (x : A) (ys : List A) → Permᴰ (insert_stable less x ys) (x ∷ ys)
  unfolding insert_stable
  insert_stable-perm x [] = perm_refl _
  insert_stable-perm x (y ∷ ys) = elim (Bool-cases (less y x)) [
    | inl h ↦ rw h (Permᴰ.trans (Permᴰ.cons refl (insert_stable-perm x ys)) (Permᴰ.swap refl refl))
    | inr h ↦ rw h (perm_refl _)
  ]

  pub sort_stable-perm : (xs : List A) → Permᴰ (sort_stable less xs) xs
  unfolding sort_stable
  sort_stable-perm [] = Permᴰ.nil
  sort_stable-perm (x ∷ xs) =
      Permᴰ.trans (insert_stable-perm x (sort_stable less xs))
        (Permᴰ.cons refl (sort_stable-perm xs))

  module _ (asymm : IsAsymmetric less) where
    head-insert_stable :
        (y x : A) (ys : List A)
        → less x y ≡ false
        → HeadFits less y ys
        → HeadFits less y (insert_stable less x ys)
    unfolding insert_stable
    head-insert_stable y x [] h _ = h
    head-insert_stable y x (z ∷ ys) h fits = ground arith

    insert_stable-IsSorted :
        (x : A) (ys : List A) → IsSorted less ys → IsSorted less (insert_stable less x ys)
    unfolding insert_stable
    insert_stable-IsSorted x [] s = (tt, tt)
    insert_stable-IsSorted x (y ∷ ys) s = elim (Bool-cases (less y x)) [
      | inl h ↦ rw h (head-insert_stable y x ys (asymm y x h) s.0, insert_stable-IsSorted x ys s.1)
      | inr h ↦ rw h (h, s)
    ]

    pub sort_stable-IsSorted : (xs : List A) → IsSorted less (sort_stable less xs)
    unfolding sort_stable
    sort_stable-IsSorted [] = tt
    sort_stable-IsSorted (x ∷ xs) =
        insert_stable-IsSorted x (sort_stable less xs) (sort_stable-IsSorted xs)

module _ {F : Type 0} ⦃go : Go F⦄ where
  pub sort_docs-perm : (ds : List (Doc F)) (spec : Doc F) → Permᴰ (sort_docs ds spec) ds
  unfolding sort_docs
  sort_docs-perm ds [] = perm_refl _
  sort_docs-perm ds ((field, dir) ∷ spec) = elim (Bool-cases (field == "$natural")) [
    | inl h ↦ rw h (perm_refl _)
    | inr h ↦ rw h (sort_stable-perm (doc_before field (is_negative dir)) ds)
  ]

  doc_before-asymm :
      IsOrdered go → (field : String) (desc : Bool) → IsAsymmetric (doc_before {F = F} field desc)
  unfolding doc_before
  doc_before-asymm o field desc d e h =
      ground
        (arith, compare_flip o (or_nil (value_by_path d field)) (or_nil (value_by_path e field)))

  -- If the floats are ordered and the first field of the specification is not `$natural`, a sort
  -- gives the same documents in the order of that field: none is before the one that it follows.
  pub sort_docs-IsSorted :
      IsOrdered go
      → (ds : List (Doc F)) (field : String) (dir : Value F) (rest : Doc F)
      → (field == "$natural") ≡ false
      → IsSorted (doc_before field (is_negative dir)) (sort_docs ds ((field, dir) ∷ rest))
        × Permᴰ (sort_docs ds ((field, dir) ∷ rest)) ds
  unfolding sort_docs
  sort_docs-IsSorted o ds field dir rest h = (
    rw h (
        sort_stable-IsSorted (doc_before field (is_negative dir))
          (doc_before-asymm o field (is_negative dir)) ds),
    sort_docs-perm ds ((field, dir) ∷ rest),
  )
