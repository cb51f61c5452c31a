-- ===== src/Mql/Types.antt =====
-- internal/mql/mql.go: `matchesBSONType`, `matchesType` and `matchesSingleBSONType`.
use text.Mathlib.Text.{◌==◌}
use timongo.Prelude.{String, Bool, true, false, List, [], ◌∷◌, any, is_empty, if◌then◌else◌, ◌||◌}
use timongo.Value.{Value, str, int32, int64, float64, arr, slice, date_time, as_array, as_map}
use timongo.Go.{Go}
use timongo.Mql.Compare.{sprint}

module _ {F : Type 0} where
  abbrev is_str : Value F → Bool
  is_str (str _) = true
  is_str _ = false

  abbrev is_int32 : Value F → Bool
  is_int32 (int32 _) = true
  is_int32 _ = false

  abbrev is_int64 : Value F → Bool
  is_int64 (int64 _) = true
  is_int64 _ = false

  abbrev is_float64 : Value F → Bool
  is_float64 (float64 _) = true
  is_float64 _ = false

  abbrev is_array : Value F → Bool
  is_array (arr _) = true
  is_array (slice _) = true
  is_array _ = false

  abbrev is_date : Value F → Bool
  is_date (date_time _) = true
  is_date _ = false

  unfoldable pub matches_single_bson_type : Value F → String → Bool
  matches_single_bson_type v name =
      if name == "string"
      then is_str v
      else if name == "int"
      then is_int32 v
      else if name == "long"
      then is_int64 v
      else if name == "double" || name == "decimal"
      then is_float64 v
      else if name == "array"
      then is_array v
      else if name == "object"
      then (if is_empty (as_map v) then false else true)
      else if name == "date"
      then is_date v
      else true

module _ {F : Type 0} ⦃go : Go F⦄ where
  abbrev or_itself : Value F → List (Value F) → List (Value F)
  or_itself v [] = v ∷ []
  or_itself v xs = xs

  unfoldable pub matches_bson_type : Value F → Value F → Bool
  matches_bson_type v raw_type =
      any (λ item. matches_single_bson_type v (sprint item))
        (or_itself raw_type (as_array raw_type))

  unfoldable pub matches_type : Value F → String → Bool
  unfolding matches_bson_type
  matches_type v name = matches_bson_type v (str name)
