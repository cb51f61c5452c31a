-- ===== src/Go.antt =====
-- What the program takes from outside its own sources: the floats of the machine, and the packages
-- of the Go runtime and of the MongoDB driver that turn values into text. They are the parameter
-- `Go F` of the model, an instance argument.
use timongo.Prelude.{String, Bool, true, false, ℕ, List, Option, ◌≡◌}
use timongo.Prelude.Int.{ℤ}
use timongo.Value.{Value, Doc}

pub record Go (F : Type 0) : Type 0 where
  -- `float64(n)` for an integer, and Go's operations on `float64`
  pub of_int : ℤ → F
  pub less : F → F → Bool
  pub same : F → F → Bool
  pub plus : F → F → F
  pub times : F → F → F
  pub divided : F → F → F
  -- the conversions `int64(x)` (`int` has as many bits) and `int32(x)`
  pub to_int64 : F → ℤ
  pub to_int32 : F → ℤ
  -- `|`, `&` and `^` on `int32`
  pub or32 : ℤ → ℤ → ℤ
  pub and32 : ℤ → ℤ → ℤ
  pub xor32 : ℤ → ℤ → ℤ
  -- `%` on `int64`, for a divisor that is not zero
  pub rem64 : ℤ → ℤ → ℤ
  -- `fmt.Sprint` of a `float32` and of a `float64`, and `strconv.FormatFloat(x, 'g', -1, 64)`
  pub print_float32 : F → String
  pub print_float64 : F → String
  pub format_float : F → String
  -- `fmt.Sprint` of a value that is no basic Go value: one of the driver's types (`ObjectID`,
  -- `DateTime`, `M`, `A`, `D`), which may have a method `String`, or a container
  pub print_value : Value F → String
  -- `fmt.Sprintf("%#v", v)`
  pub print_syntax : Value F → String
  -- `ObjectID.Hex` and `base64.StdEncoding.EncodeToString`
  pub hex : List ℕ → String
  pub base64 : List ℕ → String
  -- `regexp.Compile` of a pattern and, if it compiles, `MatchString`
  pub matches_regexp : String → String → Option Bool
  -- `==` on two values of other types, by what `Value.other` holds
  pub same_other : String → String → Bool
  -- whether a value of another type can be a key of a map: a struct with a slice in it, as the driver's
  -- `Binary`, cannot
  pub hashable_other : String → Bool
  -- the order in which `range` goes over the map of the groups of `$group`: the same documents in
  -- another order
  pub in_range : List (Doc F) → List (Doc F)
  -- `fmt.Sprintf("%T", v)`
  pub type_name : Value F → String

-- IEEE 754: no two floats are each less than the other, and none is less than itself.
pub record IsOrdered {F : Type 0} (go : Go F) : Type 0 where
  pub less_asymm : (x y : F) → go.less x y ≡ true → go.less y x ≡ false
