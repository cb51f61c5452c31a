-- ===== src/Tidb/Schema.antt =====
-- internal/backend/tidb/schema.go: the name of a collection's table, and the statement that makes it.
-- A text of SQL is the list of its code points.

use Prim.Native.Char.{code}
use text.Mathlib.TextLemmas.{append_assoc}
use timongo.Prelude.{
  arith, String, ℕ, Bool, true, false, List, [], ◌∷◌, ◌++◌, if◌then◌else◌, map, all, leb, eqb, ◌&&◌,
  ◌||◌, is_empty, ◌+◌, ◌≡◌, refl, ◌∙◌, ap, sym, true_left, true_right,
}
use timongo.Prelude.Text.{◌+++◌}

unfoldable pub codes : String → List ℕ
codes String.[] = []
codes (String.◌∷◌ c s) = code c ∷ codes s

abbrev pub within_range : ℕ → ℕ → ℕ → Bool
within_range low high n = leb low n && leb n high

-- What `[^a-zA-Z0-9_]` does not match.
abbrev pub is_ident : ℕ → Bool
is_ident n =
    within_range b'a' b'z' n || within_range b'A' b'Z' n || within_range b'0' b'9' n || eqb n b'_'

-- One character of `ReplaceAllString(base, "_")`.
abbrev pub safe_char : ℕ → ℕ
safe_char n = if is_ident n then n else b'_'

-- `strings.Trim(base, "_")`
unfoldable pub trim_left : List ℕ → List ℕ
trim_left [] = []
trim_left (n ∷ s) = let rest = trim_left s in if eqb n b'_' then rest else n ∷ s

unfoldable pub trim_right : List ℕ → List ℕ
trim_right [] = []
trim_right (n ∷ s) = let rest = trim_right s in if eqb n b'_' && is_empty rest then [] else n ∷ rest

-- One character of `strings.ToLower`, on what `is_ident` allows.
abbrev pub lower : ℕ → ℕ
lower n = if within_range b'A' b'Z' n then n + 32 else n

abbrev pub same_codes : List ℕ → List ℕ → Bool
same_codes [] [] = true
same_codes (a ∷ as_) (b ∷ bs) = eqb a b && same_codes as_ bs
same_codes _ _ = false

-- `PhysicalTableName(dbName, collection)`, by the text that it starts from.
unfoldable pub table_name_of : String → List ℕ
unfolding codes trim_left trim_right
table_name_of text =
    let base = map safe_char (codes text) in
    let trimmed = trim_right (trim_left base) in
    if is_empty trimmed || same_codes trimmed (codes "tm_doc")
    then codes "tm_doc_collection"
    else map lower trimmed

unfoldable pub physical_table_name : String → String → List ℕ
unfolding table_name_of
physical_table_name db collection = table_name_of ("tm_doc_" +++ db +++ "_" +++ collection)

-- `DocumentTableDDL(table)`
unfoldable pub document_table_ddl : List ℕ → List ℕ
unfolding codes
document_table_ddl table =
    codes "CREATE TABLE IF NOT EXISTS `"
    ++ table
    ++ codes
        "` (`id_key` VARBINARY(768) NOT NULL,`id_bson` BLOB NOT NULL,`doc_bson` LONGBLOB NOT NULL,`doc_json` JSON NOT NULL,`revision` BIGINT NOT NULL,`created_at` TIMESTAMP(6) NOT NULL DEFAULT CURRENT_TIMESTAMP(6),`updated_at` TIMESTAMP(6) NOT NULL DEFAULT CURRENT_TIMESTAMP(6) ON UPDATE CURRENT_TIMESTAMP(6),PRIMARY KEY (`id_key`))"

-- What a name of a table consists of: it closes no quotation.
abbrev pub is_table_char : ℕ → Bool
is_table_char n = within_range b'a' b'z' n || within_range b'0' b'9' n || eqb n b'_'

all-safe_char : (s : List ℕ) → all is_ident (map safe_char s) ≡ true
all-safe_char [] = refl
all-safe_char (n ∷ s) = ground (arith, all-safe_char s)

all-trim_left : (p : ℕ → Bool) (s : List ℕ) → all p s ≡ true → all p (trim_left s) ≡ true
unfolding trim_left
all-trim_left p [] h = refl
all-trim_left p (n ∷ s) h = ground (arith, all-trim_left p s)

all-trim_right : (p : ℕ → Bool) (s : List ℕ) → all p s ≡ true → all p (trim_right s) ≡ true
unfolding trim_right
all-trim_right p [] h = refl
all-trim_right p (n ∷ s) h = ground (arith, all-trim_right p s)

lower-is_table_char : (n : ℕ) → is_ident n ≡ true → is_table_char (lower n) ≡ true
lower-is_table_char n h = ground arith

all-lower : (s : List ℕ) → all is_ident s ≡ true → all is_table_char (map lower s) ≡ true
all-lower [] h = refl
all-lower (n ∷ s) h =
    rw
      (
        lower-is_table_char n (true_left (is_ident n) (all is_ident s) h),
        all-lower s (true_right (is_ident n) (all is_ident s) h),
      )
      refl

named :
    (empty other : Bool) (s : List ℕ)
    → all is_table_char s ≡ true
    → all is_table_char (if empty || other then codes "tm_doc_collection" else s) ≡ true
unfolding codes
named true other s h = refl
named false true s h = refl
named false false s h = h

all-table_name_of : (text : String) → all is_table_char (table_name_of text) ≡ true
unfolding table_name_of
all-table_name_of text =
    let base = map safe_char (codes text) in
    let trimmed = trim_right (trim_left base) in
    named (is_empty trimmed) (same_codes trimmed (codes "tm_doc")) (map lower trimmed) (
      all-lower trimmed (
        all-trim_right is_ident (trim_left base)
          (all-trim_left is_ident base (all-safe_char (codes text)))))

-- The name of a table consists of lowercase letters, digits and underscores, whatever the names of
-- the database and the collection are, so it closes no quotation in a statement of SQL.
pub all-physical_table_name :
    (db collection : String) → all is_table_char (physical_table_name db collection) ≡ true
unfolding physical_table_name
all-physical_table_name db collection = all-table_name_of ("tm_doc_" +++ db +++ "_" +++ collection)

-- The collection `b_c` of a database `a` and the collection `c` of the database `a_b` are one table,
-- for all names `a`, `b` and `c`.
pub physical_table_name-clash :
    (a b c : String)
    → physical_table_name a (b +++ "_" +++ c) ≡ physical_table_name (a +++ "_" +++ b) c
unfolding physical_table_name
physical_table_name-clash a b c =
    ap (λ s. table_name_of ("tm_doc_" +++ s))
      (ap (λ s. a +++ s) (sym (append_assoc "_" b ("_" +++ c)))
        ∙ sym (append_assoc a ("_" +++ b) ("_" +++ c)))
