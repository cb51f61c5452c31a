-- ===== src/Mql/Schema/Laws.antt =====
-- A document passes the validator exactly when it has the required fields and its properties are
-- as the schema says.
use text.Mathlib.Text.{◌==◌}
use timongo.Prelude.{
  String, Bool, true, false, List, [], ◌∷◌, ◌≡◌, ◌↔◌, refl, arith, ok, all, ◌&&◌, ◌||◌, is_empty,
  Option, none, some,
}
use timongo.Prelude.Dict.{lookup, has}
use timongo.Value.{Value, Doc, as_map, as_array}
use timongo.Go.{Go}
use timongo.Mql.Compare.{array_contains}
use timongo.Mql.Types.{matches_bson_type}
use timongo.Mql.Update.Operators.{get}
use timongo.Mql.Schema.{
  check_required, check_property, check_properties, validate_json_schema, as_doc_or_nil,
  text_or_empty,
}

module _ {F : Type 0} ⦃go : Go F⦄ where
  -- The field that a `required` item names is there; an item that names none asks for nothing.
  abbrev pub is_present : Doc F → Value F → Bool
  is_present d raw = text_or_empty raw == "" || has (text_or_empty raw) d

  abbrev holds_if_given : (Value F → Bool) → Option (Value F) → Bool
  holds_if_given test none = true
  holds_if_given test (some v) = test v

  -- A property's `enum` has the value, and its `bsonType` is one of the value's types; a field
  -- that the document does not have is as it should be.
  abbrev pub fits : Doc F → String × Value F → Bool
  fits d e =
      holds_if_given
        (λ value.
          holds_if_given (λ enum. array_contains enum value) (lookup "enum" (as_map e.1))
          && holds_if_given (matches_bson_type value) (lookup "bsonType" (as_map e.1)))
        (lookup e.0 d)

  check_required_iff :
      (names : List (Value F)) (d : Doc F)
      → (check_required names d ≡ ok tt) ↔ (all (is_present d) names ≡ true)
  unfolding check_required
  check_required_iff [] d = (λ _. refl, λ _. refl)
  check_required_iff (raw ∷ names) d = ground (arith, check_required_iff names d)

  check_property_iff :
      (name : String) (spec : Value F) (d : Doc F)
      → (check_property name (as_map spec) (lookup name d) ≡ ok tt) ↔ (fits d (name, spec) ≡ true)
  unfolding check_property
  check_property_iff name spec d = ground arith

  check_properties_iff :
      (properties d : Doc F)
      → (check_properties properties d ≡ ok tt) ↔ (all (fits d) properties ≡ true)
  unfolding check_properties
  check_properties_iff [] d = (λ _. refl, λ _. refl)
  check_properties_iff ((name, spec) ∷ properties) d =
      ground (arith, check_property_iff name spec d, check_properties_iff properties d)

  abbrev pub schema_of : Value F → Doc F
  schema_of validator = as_doc_or_nil (get "$jsonSchema" (as_doc_or_nil validator))

  -- Validation against a schema that is not empty succeeds exactly when every required field is
  -- there and every property that the document has fits its specification.
  pub validate_json_schema_iff :
      (validator : Value F) (d : Doc F)
      → is_empty (schema_of validator) ≡ false
      → (validate_json_schema validator d ≡ ok tt) ↔ (
          (all (is_present d) (as_array (get "required" (schema_of validator)))
            && all (fits d) (as_map (get "properties" (schema_of validator))))
          ≡ true)
  unfolding validate_json_schema
  validate_json_schema_iff validator d nonempty = ground (
    arith,
    check_required_iff (as_array (get "required" (schema_of validator))) d,
    check_properties_iff (as_map (get "properties" (schema_of validator))) d,
  )
