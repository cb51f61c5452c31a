-- ===== src/Prelude/Dict.antt =====
-- Go's `map[string]V`: an association list with the entries in the order of one iteration. A Go
-- map iterates in an order that is not specified, so what is proved of every list is proved of
-- every order. A write of a new key puts it last.
use Prim.Native.String.{String}
use mathlib.Core.Path.{◌≡◌, refl, ◌∙◌}
use mathlib.Core.Logic.{inl, inr}
use Prim.Native.Nat.{suc}
use mathlib.Core.Bool.{Bool, true, false}
use mathlib.Core.Option.{Option, none, some}
use mathlib.Core.List.{List, [], ◌∷◌}
use native.Mathlib.Omega.{arith}
use text.Mathlib.Text.{◌==◌}
use text.Mathlib.TextEquality.{eq_iff}
use text.Mathlib.TextPositions.{eq_refl}
use timongo.Prelude.Tests.{if◌then◌else◌, Bool-cases}
use timongo.Prelude.Lists.{length}

abbrev pub Dict {ℓ} : Type ℓ → Type ℓ
Dict V = List (String × V)

module _ {ℓ} {V : Type ℓ} where
  -- `v, ok := m[k]`
  unfoldable pub lookup : String → Dict V → Option V
  lookup k [] = none
  lookup k ((j, v) ∷ m) = if j == k then some v else lookup k m

  -- `m[k] = v`
  unfoldable pub insert : String → V → Dict V → Dict V
  insert k v [] = (k, v) ∷ []
  insert k v ((j, w) ∷ m) = if j == k then (k, v) ∷ m else (j, w) ∷ insert k v m

  -- `delete(m, k)`
  unfoldable pub remove : String → Dict V → Dict V
  remove k [] = []
  remove k ((j, w) ∷ m) = let rest = remove k m in if j == k then rest else (j, w) ∷ rest

  -- `_, ok := m[k]`
  abbrev pub has : String → Dict V → Bool
  has k m = elim (lookup k m) [ none ↦ false | some _ ↦ true ]

  pub lookup-insert :
      (key wanted : String) (new : V) (m : Dict V)
      → lookup wanted (insert key new m) ≡ (if key == wanted then some new else lookup wanted m)
  unfolding insert lookup
  lookup-insert key wanted new [] = refl
  lookup-insert key wanted new ((other, old) ∷ m) =
      let below = lookup-insert key wanted new m in
      ground (arith, below, eq_iff other wanted, eq_iff key wanted, eq_iff other key)

  pub lookup-remove :
      (k j : String) (m : Dict V) → lookup j (remove k m) ≡ (if k == j then none else lookup j m)
  unfolding lookup remove
  lookup-remove k j [] = ground arith
  lookup-remove k j ((i, w) ∷ m) =
      ground (arith, eq_iff k j, eq_iff i k, eq_iff i j, lookup-remove k j m)

pub ruleset dict_laws = (lookup-insert, lookup-remove)

module _ {ℓ} {V : Type ℓ} where
  pub lookup-insert_ne :
      (k j : String) (v : V) (m : Dict V) → (k == j) ≡ false → lookup j (insert k v m) ≡ lookup j m
  lookup-insert_ne k j v m h = rw (lookup-insert, h)

  pub lookup-remove_ne :
      (k j : String) (m : Dict V) → (k == j) ≡ false → lookup j (remove k m) ≡ lookup j m
  lookup-remove_ne k j m h = rw (lookup-remove, h)

  pub lookup-insert_self : (k : String) (v : V) (m : Dict V) → lookup k (insert k v m) ≡ some v
  lookup-insert_self k v m = rw (lookup-insert, eq_refl)

  -- A Go map: no key twice.
  abbrev pub IsMap : Dict V → Type ℓ
  IsMap [] = Unit {ℓ}
  IsMap ((k, v) ∷ m) = (lookup k m ≡ none) × IsMap m

  -- `first`, or `second` where there is none.
  abbrev pub or_else : Option V → Option V → Option V
  or_else none second = second
  or_else (some v) second = some v

module _ {ℓ} {V : Type ℓ} where
  -- The number of entries after a write.
  pub length-insert_new :
      (k : String) (v : V) (m : Dict V) → lookup k m ≡ none → length (insert k v m) ≡ suc (length m)
  unfolding lookup insert
  length-insert_new k v [] h = refl
  length-insert_new k v ((j, w) ∷ m) h = ground (arith, length-insert_new k v m)

  pub insert-IsMap : (k : String) (v : V) (m : Dict V) → IsMap m → IsMap (insert k v m)
  unfolding insert lookup
  insert-IsMap k v [] h = (refl, tt)
  insert-IsMap k v ((j, w) ∷ m) h = elim (Bool-cases (j == k)) [
    | inl e ↦ rw (e, ← (eq_iff j k).0 e) h
    | inr e ↦ rw e (lookup-insert_ne k j v m (flip e) ∙ h.0, insert-IsMap k v m h.1)
  ]
    where
      flip : (j == k) ≡ false → (k == j) ≡ false
      flip e = ground (arith, eq_iff j k, eq_iff k j)
