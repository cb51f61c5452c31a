-- ===== src/Mongoerrors.antt =====
-- internal/mongoerrors/errors.go. The message of an error is the text that the call of `New` formats.
use timongo.Prelude.{
  String, ℕ, Error, command_error, unsupported_stage, unsupported_update, unsupported_accumulator,
  missing_required, not_in_enum, invalid_type, missing_id, unsupported_id, duplicate_key,
  library_error,
}
use timongo.Prelude.Int.{pos}
use timongo.Prelude.Text.{◌+++◌, print_ℤ}

abbrev pub code_command_not_found : ℕ
code_command_not_found = 59

abbrev pub code_bad_value : ℕ
code_bad_value = 2

-- `New(code, name, format, args...)`
abbrev pub new : ℕ → String → String → Error
new code name message = command_error code name message

-- The method `Error`, which prints the error.
unfoldable pub print_error : ℕ → String → String → String
print_error code name message = name +++ " (" +++ print_ℤ (pos code) +++ "): " +++ message

-- The text of any error: the formats of internal/mql/mql.go, internal/bsonutil/bsonutil.go and
-- internal/backend/memory/memory.go.
unfoldable pub error_text : Error → String
unfolding print_error
error_text (unsupported_stage op) = "unsupported aggregation stage " +++ op
error_text (unsupported_update op) = "unsupported update operator " +++ op
error_text (unsupported_accumulator op) = "unsupported group accumulator " +++ op
error_text (missing_required name) = "document validation failed: missing required field " +++ name
error_text (not_in_enum name) = "document validation failed: " +++ name +++ " is not in enum"
error_text (invalid_type name) = "document validation failed: " +++ name +++ " has invalid type"
error_text missing_id = "missing _id"
error_text (unsupported_id name) = "unsupported _id type " +++ name
error_text (duplicate_key key) = "duplicate key: " +++ key
error_text (library_error text) = text
error_text (command_error code name message) = print_error code name message
