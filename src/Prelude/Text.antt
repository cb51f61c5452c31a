-- ===== src/Prelude/Text.antt =====
-- The functions on strings that the program takes from `strings` and `strconv`.
use Prim.Native.Nat.{ℕ, zero, suc, ◌/◌, ◌%◌, compare, Ordering}
use Prim.Native.Char.{code}
use Prim.Native.String.{String, ◌++◌}
use mathlib.Core.Path.{◌≡◌, refl}
use mathlib.Core.Bool.{Bool, false}
use mathlib.Core.Option.{Option, none, some}
use mathlib.Core.List.{List, [], ◌∷◌}
use mathlib.Core.Logic.{◌↔◌}
use native.Mathlib.Omega.{arith}
use text.Mathlib.TextEquality.{Char-path}
use timongo.Prelude.Int.{ℤ, pos, negsuc}
use timongo.Prelude.Tests.{ltb, eqb, if◌then◌else◌}

-- `a + b` on strings.
infixr 65 ◌+++◌
abbrev pub ◌+++◌ : String → String → String
a +++ b = a ++ b

-- One step of `strings.Split(s, sep)` for a one-byte separator.
split_char : ℕ → ℕ → String → List String → List String
split_char sep c s [] = s ∷ []
split_char sep c s (part ∷ parts) = if eqb c sep then "" ∷ part ∷ parts else s ∷ parts

abbrev first_or_empty : List String → String
first_or_empty [] = ""
first_or_empty (part ∷ _) = part

unfoldable pub split : ℕ → String → List String
unfolding split_char
split sep String.[] = "" ∷ []
split sep (String.◌∷◌ c s) =
    let rest = split sep s in split_char sep (code c) (String.◌∷◌ c (first_or_empty rest)) rest

-- `s < t` on strings compares bytes. In UTF-8 this is the order of the code points.
unfoldable pub compare_text : String → String → Ordering
compare_text String.[] String.[] = Ordering.eq
compare_text String.[] (String.◌∷◌ c t) = Ordering.lt
compare_text (String.◌∷◌ c s) String.[] = Ordering.gt
compare_text (String.◌∷◌ c s) (String.◌∷◌ d t) =
    let rest = compare_text s t in
    elim (compare (code c) (code d)) [
      | Ordering.lt ↦ Ordering.lt
      | Ordering.eq ↦ rest
      | Ordering.gt ↦ Ordering.gt
    ]

abbrev pub flip_order : Ordering → Ordering
flip_order Ordering.lt = Ordering.gt
flip_order Ordering.eq = Ordering.eq
flip_order Ordering.gt = Ordering.lt

pub compare_text_flip : (s t : String) → compare_text s t ≡ flip_order (compare_text t s)
unfolding compare_text
compare_text_flip String.[] String.[] = refl
compare_text_flip String.[] (String.◌∷◌ d t) = refl
compare_text_flip (String.◌∷◌ c s) String.[] = refl
compare_text_flip (String.◌∷◌ c s) (String.◌∷◌ d t) = ground (arith, compare_text_flip s t)

-- `strings.TrimPrefix(s, "$")`, and the test `s[0] == '$'` on a text that is not empty.
unfoldable pub trim_dollar : String → String
trim_dollar String.[] = ""
trim_dollar (String.◌∷◌ c s) = if eqb (code c) b'$' then s else String.◌∷◌ c s

unfoldable pub starts_with_dollar : String → Bool
starts_with_dollar String.[] = false
starts_with_dollar (String.◌∷◌ c s) = eqb (code c) b'$'

-- The rest of a text behind a prefix: `s[:len(prefix)] == prefix` and `s[len(prefix):]`.
unfoldable pub strip_prefix : String → String → Option String
strip_prefix String.[] s = some s
strip_prefix (String.◌∷◌ c p) String.[] = none
strip_prefix (String.◌∷◌ c p) (String.◌∷◌ d s) =
    let rest = strip_prefix p s in if eqb (code c) (code d) then rest else none

digit : ℕ → String
digit d =
    if eqb d 0
    then "0"
    else if eqb d 1
    then "1"
    else if eqb d 2
    then "2"
    else if eqb d 3
    then "3"
    else if eqb d 4
    then "4"
    else if eqb d 5
    then "5"
    else if eqb d 6
    then "6"
    else if eqb d 7
    then "7"
    else if eqb d 8
    then "8"
    else "9"

-- `n` has at most `fuel` digits.
digits : ℕ → ℕ → String → String
digits zero n acc = acc
digits (suc fuel) n acc =
    let shown = digit (n % 10) +++ acc in
    let rest = digits fuel (n / 10) shown in if ltb n 10 then shown else rest

unfoldable pub print_ℕ : ℕ → String
unfolding digit digits
print_ℕ n = digits (suc n) n ""

-- `strconv.FormatInt(n, 10)`, and `fmt.Sprint` of an integer.
unfoldable pub print_ℤ : ℤ → String
unfolding print_ℕ
print_ℤ (pos n) = print_ℕ n
print_ℤ (negsuc n) = "-" +++ print_ℕ (suc n)

compare_text_refl : (s : String) → compare_text s s ≡ Ordering.eq
unfolding compare_text
compare_text_refl String.[] = refl
compare_text_refl (String.◌∷◌ c s) = ground (arith, compare_text_refl s)

eq_of_compare_text : (s t : String) → compare_text s t ≡ Ordering.eq → s ≡ t
unfolding compare_text
eq_of_compare_text String.[] String.[] h = refl
eq_of_compare_text String.[] (String.◌∷◌ d t) h = cc
eq_of_compare_text (String.◌∷◌ c s) String.[] h = cc
eq_of_compare_text (String.◌∷◌ c s) (String.◌∷◌ d t) h =
    let same_rest : s ≡ t = eq_of_compare_text s t (ground arith) in
    let same_char : c ≡ d = Char-path c d (ground arith) in
    λ i. String.◌∷◌ (same_char i) (same_rest i)

pub compare_text_eq : (s t : String) → (compare_text s t ≡ Ordering.eq) ↔ (s ≡ t)
compare_text_eq s t = (eq_of_compare_text s t, λ e. rw e (compare_text_refl t))
