-- ===== src/Mql/Schema.antt =====
-- internal/mql/mql.go: `ValidateJSONSchema`.
pub mod Laws
use text.Mathlib.Text.{◌==◌}
use timongo.Prelude.{
  String, Bool, List, [], ◌∷◌, Option, none, some, if◌then◌else◌, Result, ok, err, missing_required,
  not_in_enum, invalid_type, ◌>>=◌, ◌>>◌, is_empty,
}
use timongo.Prelude.Dict.{lookup, has}
use timongo.Value.{Value, null, str, doc, Doc, entries, as_map, as_array}
use timongo.Go.{Go}
use timongo.Mql.Compare.{array_contains}
use timongo.Mql.Path.{or_nil}
use timongo.Mql.Types.{matches_bson_type}
use timongo.Mql.Update.Operators.{get}

module _ {F : Type 0} where
  -- `m, _ := v.(bson.M)` and `s, _ := v.(string)`
  abbrev pub as_doc_or_nil : Value F → Doc F
  as_doc_or_nil (doc m) = entries m
  as_doc_or_nil _ = []

  abbrev pub text_or_empty : Value F → String
  text_or_empty (str s) = s
  text_or_empty _ = ""

module _ {F : Type 0} ⦃go : Go F⦄ where
  -- The loop over `required`.
  unfoldable pub check_required : List (Value F) → Doc F → Result (Unit {0})
  check_required [] d = ok tt
  check_required (raw ∷ names) d =
      let name = text_or_empty raw in
      let rest = check_required names d in
      if name == "" then rest else if has name d then rest else err (missing_required name)

  abbrev check_enum : String → Option (Value F) → Value F → Result (Unit {0})
  check_enum name none value = ok tt
  check_enum name (some enum) value =
      if array_contains enum value then ok tt else err (not_in_enum name)

  abbrev check_type : String → Option (Value F) → Value F → Result (Unit {0})
  check_type name none value = ok tt
  check_type name (some type) value =
      if matches_bson_type value type then ok tt else err (invalid_type name)

  -- One property of a field that the document has.
  unfoldable pub check_property : String → Doc F → Option (Value F) → Result (Unit {0})
  check_property name spec none = ok tt
  check_property name spec (some value) = do
    check_enum name (lookup "enum" spec) value
    check_type name (lookup "bsonType" spec) value

  -- The loop over `properties`.
  unfoldable pub check_properties : Doc F → Doc F → Result (Unit {0})
  check_properties [] d = ok tt
  check_properties ((name, spec) ∷ properties) d = do
    check_property name (as_map spec) (lookup name d)
    check_properties properties d

  -- `ValidateJSONSchema(rawValidator, doc)`
  unfoldable pub validate_json_schema : Value F → Doc F → Result (Unit {0})
  validate_json_schema validator d =
      let schema = as_doc_or_nil (get "$jsonSchema" (as_doc_or_nil validator)) in
      if is_empty schema then ok tt else do
        check_required (as_array (get "required" schema)) d
        check_properties (as_map (get "properties" schema)) d
