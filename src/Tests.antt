-- ===== src/Tests.antt =====
-- Concrete values for the tests and the examples: floats that are whole numbers, texts printed in a
-- simple way, and a small collection.
pub mod Queries
pub mod Updates
pub mod Stores
pub mod Commands
pub mod Handlers
pub mod Servers
pub mod Deployment
pub mod Sql
pub mod Rows
pub mod Tidb
pub mod Tables
use timongo.Prelude.{
  not, ℕ, ◌+◌, ◌*◌, ◌/◌, ◌-◌, String, Bool, true, false, List, [], ◌∷◌, Option, none, some, leb,
  if◌then◌else◌, arith, ◌≡◌,
}
use timongo.Prelude.Int.{ℤ, pos, negsuc, pos_part, neg_part, ltb_ℤ, eqb_ℤ}
use timongo.Prelude.Text.{◌+++◌, print_ℤ}
use timongo.Value.{Value, str, int32, Doc, doc, of_doc}
use timongo.Go.{Go, IsOrdered}
use timongo.Memory.Store.{Store, namespace}
use text.Mathlib.Text.{◌==◌}

abbrev minus : ℕ → ℕ → ℤ
minus a b = if leb b a then pos (a - b) else negsuc (b - a - 1)

abbrev product : ℤ → ℤ → ℤ
product x y =
    minus (pos_part x * pos_part y + neg_part x * neg_part y)
      (pos_part x * neg_part y + neg_part x * pos_part y)

instance abbrev pub whole : Go ℤ
whole = record {
  of_int = λ n. n;
  less = ltb_ℤ;
  same = eqb_ℤ;
  plus = λ x y. minus (pos_part x + pos_part y) (neg_part x + neg_part y);
  times = product;
  divided = λ x y. minus (pos_part x / pos_part y) (neg_part x / pos_part y);
  to_int64 = λ x. x;
  to_int32 = λ x. x;
  or32 = λ x y. x;
  and32 = λ x y. y;
  xor32 = λ x y. x;
  rem64 = λ x y. minus (pos_part x - pos_part x / pos_part y * pos_part y) 0;
  print_float32 = print_ℤ;
  print_float64 = print_ℤ;
  format_float = print_ℤ;
  print_value = λ v. "value";
  print_syntax = λ v. "value";
  hex = λ bs. "id";
  base64 = λ bs. "bytes";
  matches_regexp = λ pattern text. some (pattern == text);
  same_other = λ a b. a == b;
  hashable_other = λ a. not (a == "binary");
  in_range = λ m. m;
  type_name = λ v. "type";
}

pub whole-IsOrdered : IsOrdered whole
whole-IsOrdered = record { less_asymm = λ x y h. ground arith }

abbrev pub num : ℕ → Value ℤ
num n = int32 (pos n)

-- `{_id: name, n: n}`
abbrev pub item : String → ℕ → Doc ℤ
item name n = ("_id", str name) ∷ ("n", int32 (pos n)) ∷ []

-- A filter on one field.
abbrev pub on_n : String → ℕ → Doc ℤ
on_n op n = ("n", of_doc ((op, int32 (pos n)) ∷ [])) ∷ []

abbrev pub three : List (Doc ℤ)
three = item "a" 3 ∷ item "b" 1 ∷ item "c" 2 ∷ []

-- The store with one collection `db.c` of three documents.
abbrev pub shelf : Store ℤ
shelf = record {
  collections =
      ("db.c", ("string:a", item "a" 3) ∷ ("string:b", item "b" 1) ∷ ("string:c", item "c" 2) ∷ [])
      ∷ [];
  options = [];
  indexes = [];
}
