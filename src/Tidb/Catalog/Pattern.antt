-- ===== src/Tidb/Catalog/Pattern.antt =====
-- internal/backend/tidb/store.go: which tables the pattern of `DropDatabase` matches.

use Prim.Native.Char.{code}
use mathlib.Core.List.{append_assoc}
use text.Mathlib.TextLemmas.{nil-append, cons-append}
use timongo.Prelude.{
  arith, String, ℕ, Bool, true, false, List, [], ◌∷◌, ◌++◌, if◌then◌else◌, map, all, any, eqb, ◌&&◌,
  ◌||◌, not, is_empty, ◌≡◌, refl, ◌∙◌, ap, sym, Bool-cases, inl, inr, and_false, or_right,
  map-append,
}
use timongo.Prelude.Text.{◌+++◌}
use timongo.Tidb.Schema.{
  codes, is_ident, safe_char, lower, trim_left, trim_right, same_codes, table_name_of,
  physical_table_name, is_table_char, all-physical_table_name,
}
use timongo.Tidb.Catalog.{trim_suffix, like_pattern}

-- Whether some end of the text passes.
unfoldable pub any_end : (List ℕ → Bool) → List ℕ → Bool
any_end p [] = p []
any_end p (c ∷ s) = let rest = any_end p s in p (c ∷ s) || rest

-- `LIKE` of SQL, on a pattern without escapes: `_` is any character, `%` any text.
unfoldable pub like : List ℕ → List ℕ → Bool
unfolding any_end
like [] s = is_empty s
like (p ∷ ps) s =
    let rest = like ps in
    if eqb p b'%'
    then any_end rest s
    else elim s [ [] ↦ false | c ∷ s' ↦ (eqb p b'_' || eqb p c) && rest s' ]

-- A letter or a digit.
abbrev pub is_word : ℕ → Bool
is_word n = is_ident n && not (eqb n b'_')

any_end-nil : (s : List ℕ) → any_end (like []) s ≡ true
unfolding any_end like
any_end-nil [] = refl
any_end-nil (c ∷ s) = rw (any_end-nil s) refl

like-rest : (s : List ℕ) → is_empty s ≡ false → like (codes "_%") s ≡ true
unfolding like codes
like-rest [] h = cc
like-rest (c ∷ s) h = any_end-nil s

like-append : (p q s : List ℕ) → all is_table_char p ≡ true → like (p ++ q) (p ++ s) ≡ like q s
unfolding like
like-append [] q s h = refl
like-append (c ∷ p) q s h = ground (arith, like-append p q s)

codes-append : (s t : String) → codes (s +++ t) ≡ codes s ++ codes t
unfolding codes
codes-append String.[] t = ap codes (nil-append t)
codes-append (String.◌∷◌ c s) t =
    ap codes (cons-append c s t) ∙ ap (◌∷◌ (code c)) (codes-append s t)

is_empty-append : (s t : List ℕ) → is_empty t ≡ false → is_empty (s ++ t) ≡ false
is_empty-append [] t h = h
is_empty-append (c ∷ s) t h = refl

is_empty-map : (f : ℕ → ℕ) (s : List ℕ) → is_empty (map f s) ≡ is_empty s
is_empty-map f [] = refl
is_empty-map f (c ∷ s) = refl

lower-underscore : (c : ℕ) → eqb (lower c) b'_' ≡ eqb c b'_'
lower-underscore c = ground arith

safe_char-word : (c : ℕ) → is_word c ≡ true → eqb (safe_char c) b'_' ≡ false
safe_char-word c h = ground arith

trim_right-append :
    (s t : List ℕ) → is_empty (trim_right t) ≡ false → trim_right (s ++ t) ≡ s ++ trim_right t
unfolding trim_right
trim_right-append [] t h = refl
trim_right-append (c ∷ s) t h =
    rw (trim_right-append s t h, is_empty-append s (trim_right t) h, and_false (eqb c b'_')) refl

trim_right-underscore : (s : List ℕ) → trim_right (s ++ b'_' ∷ []) ≡ trim_right s
unfolding trim_right
trim_right-underscore [] = refl
trim_right-underscore (c ∷ s) = rw (trim_right-underscore s) refl

trim_right-word :
    (s : List ℕ) → any is_word s ≡ true → is_empty (trim_right (map safe_char s)) ≡ false
unfolding trim_right
trim_right-word [] h = cc
trim_right-word (c ∷ s) h = elim (Bool-cases (is_word c)) [
  | inl word ↦ rw (safe_char-word c word) refl
  | inr other ↦
      rw
        (
          trim_right-word s (or_right (is_word c) (any is_word s) h other),
          and_false (eqb (safe_char c) b'_'),
        )
        refl
]

trim_right-front : (s : List ℕ) → (rest : List ℕ) × (s ≡ trim_right s ++ rest)
unfolding trim_right
trim_right-front [] = ([], refl)
trim_right-front (c ∷ s) = elim (Bool-cases (eqb c b'_' && is_empty (trim_right s))) [
  | inl gone ↦ (c ∷ s, rw gone refl)
  | inr stays ↦ let (rest, same) = trim_right-front s in (rest, rw stays (ap (◌∷◌ c) same))
]

trim_suffix-trimmed :
    (s : List ℕ) → trim_suffix (map lower (trim_right s)) ≡ map lower (trim_right s)
unfolding trim_suffix trim_right
trim_suffix-trimmed [] = refl
trim_suffix-trimmed (c ∷ s) = elim (Bool-cases (eqb c b'_' && is_empty (trim_right s))) [
  | inl gone ↦ rw gone refl
  | inr stays ↦ rw stays (
      rw (trim_suffix-trimmed s, lower-underscore c, is_empty-map lower (trim_right s), stays) refl)
]

abbrev prefix : List ℕ
prefix = codes "tm_doc_"

abbrev safe : String → List ℕ
safe s = map safe_char (codes s)

safe-append : (s t : String) → safe (s +++ t) ≡ safe s ++ safe t
safe-append s t = ap (map safe_char) (codes-append s t) ∙ map-append safe_char (codes s) (codes t)

safe-name :
    (db collection : String)
    → safe ("tm_doc_" +++ db +++ "_" +++ collection) ≡ prefix ++ (safe db ++ b'_' ∷ safe collection)
unfolding codes
safe-name db collection =
    safe-append "tm_doc_" (db +++ "_" +++ collection)
    ∙ ap (λ s. prefix ++ s)
        (safe-append db ("_" +++ collection) ∙ ap (λ s. safe db ++ s) (safe-append "_" collection))

trim-prefix :
    (s : List ℕ)
    → is_empty (trim_right s) ≡ false
    → trim_right (trim_left (prefix ++ s)) ≡ prefix ++ trim_right s
unfolding codes trim_left
trim-prefix s h = trim_right-append prefix s h

-- What becomes of a name when it is trimmed.
abbrev or_collection : List ℕ → List ℕ
or_collection s =
    if is_empty s || same_codes s (codes "tm_doc") then codes "tm_doc_collection" else map lower s

table_name_of-prefix :
    (text : String) (s : List ℕ)
    → safe text ≡ prefix ++ s
    → is_empty (trim_right s) ≡ false
    → table_name_of text ≡ map lower (prefix ++ trim_right s)
unfolding table_name_of codes
table_name_of-prefix text s e h =
    ap (λ b. or_collection (trim_right (trim_left b))) e ∙ ap or_collection (trim-prefix s h)

-- The table of a collection whose name has a letter or a digit, and what its name starts with.
name_start : String → List ℕ
name_start db = map lower (prefix ++ trim_right (safe db))

start-lem :
    (db : String) → any is_word (codes db) ≡ true → physical_table_name db "" ≡ name_start db
unfolding physical_table_name name_start
start-lem db word =
    let full = trim_right-word (codes db) word in
    let same = trim_right-underscore (safe db) in
    table_name_of-prefix ("tm_doc_" +++ db +++ "_" +++ "") (safe db ++ b'_' ∷ []) (safe-name db "")
      (ap is_empty same ∙ full)
    ∙ ap (λ s. map lower (prefix ++ s)) same

start-trimmed :
    (db : String) → any is_word (codes db) ≡ true → trim_suffix (name_start db) ≡ name_start db
unfolding name_start
start-trimmed db word =
    let same = trim_right-append prefix (safe db) (trim_right-word (codes db) word) in
    rw (← same) (trim_suffix-trimmed (prefix ++ safe db))

name-lem :
    (db collection : String)
    → any is_word (codes collection) ≡ true
    → (rest : List ℕ) × (is_empty rest ≡ false)
      × (physical_table_name db collection ≡ name_start db ++ rest)
unfolding physical_table_name name_start trim_right
name-lem db collection word =
    let full = trim_right-word (codes collection) word in
    let (rest, same) = trim_right-front (safe db) in
    let whole = b'_' ∷ safe collection in
    let kept : trim_right whole ≡ b'_' ∷ trim_right (safe collection) = rw full refl in
    let kept_full : is_empty (trim_right whole) ≡ false = ap is_empty kept in
    let split = trim_right-append (safe db) whole kept_full in
    (
      map lower (rest ++ trim_right whole),
      is_empty-map lower (rest ++ trim_right whole)
          ∙ is_empty-append rest (trim_right whole) kept_full,
      table_name_of-prefix _ (safe db ++ whole) (safe-name db collection)
            (ap is_empty split ∙ is_empty-append (safe db) (trim_right whole) kept_full)
          ∙ ap (λ t. map lower (prefix ++ t))
              (split
                ∙ ap (λ t. t ++ trim_right whole) same
                ∙ append_assoc (trim_right (safe db)) rest (trim_right whole))
          ∙ map-append lower (prefix ++ trim_right (safe db)) (rest ++ trim_right whole),
    )

-- The pattern of `DropDatabase` matches the table of every collection of the database, where both
-- names have a letter or a digit.
pub like-name :
    (db collection : String)
    → any is_word (codes db) ≡ true
    → any is_word (codes collection) ≡ true
    → like (like_pattern db) (physical_table_name db collection) ≡ true
unfolding like_pattern
like-name db collection word word' =
    let (rest, full, same) = name-lem db collection word' in
    let start : physical_table_name db "" ≡ name_start db = start-lem db word in
    let chars = ap (all is_table_char) (sym start) ∙ all-physical_table_name db "" in
    rw (start, start-trimmed db word, same)
      (like-append (name_start db) (codes "_%") rest chars ∙ like-rest rest full)
