-- ===== src/Mql/Match/Keys.antt =====
-- The keys of a filter and the names of the operators, in the order of the two switches.
use text.Mathlib.Text.{◌==◌}
use timongo.Prelude.{String, ◌||◌, if◌then◌else◌}

pub data FilterKey : Type 0 where
  and or nor ignored path : FilterKey

unfoldable pub filter_key : String → FilterKey
filter_key key =
    if key == "$and"
    then FilterKey.and
    else if key == "$or"
    then FilterKey.or
    else if key == "$nor"
    then FilterKey.nor
    else if key == "$expr" || key == "$jsonSchema" || key == "$text" || key == "$where"
    then FilterKey.ignored
    else FilterKey.path

pub data Operator : Type 0 where
  eq ne gt gte lt lte one_of none_of exists regex contains_all size elem_match negate : Operator
  mod_test type_test ignored unknown : Operator

unfoldable pub operator : String → Operator
operator op =
    if op == "$eq"
    then Operator.eq
    else if op == "$ne"
    then Operator.ne
    else if op == "$gt"
    then Operator.gt
    else if op == "$gte"
    then Operator.gte
    else if op == "$lt"
    then Operator.lt
    else if op == "$lte"
    then Operator.lte
    else if op == "$in"
    then Operator.one_of
    else if op == "$nin"
    then Operator.none_of
    else if op == "$exists"
    then Operator.exists
    else if op == "$regex"
    then Operator.regex
    else if op == "$all"
    then Operator.contains_all
    else if op == "$size"
    then Operator.size
    else if op == "$elemMatch"
    then Operator.elem_match
    else if op == "$not"
    then Operator.negate
    else if op == "$mod"
    then Operator.mod_test
    else if op == "$type"
    then Operator.type_test
    else if op == "$bitsAllSet"
        || op == "$bitsAnyClear"
        || op == "$geoWithin"
        || op == "$geoIntersects"
        || op == "$near"
    then Operator.ignored
    else Operator.unknown
