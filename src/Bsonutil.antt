-- ===== src/Bsonutil.antt =====
-- internal/bsonutil/bsonutil.go: `ValueKey` and `DocumentIDKey`.
pub mod Normalize
pub mod ExtJson
use timongo.Prelude.{String, Result, ok, err, unsupported_id, missing_id, Option, none, some}
use timongo.Prelude.Text.{◌+++◌, print_ℤ}
use timongo.Prelude.Dict.{lookup}
use timongo.Value.{Value, object_id, str, int, int32, int64, float64, bytes, Doc}
use timongo.Go.{Go}

module _ {F : Type 0} ⦃go : Go F⦄ where
  unfoldable pub value_key : Value F → Result String
  value_key (object_id id) = ok ("objectid:" +++ go.hex id)
  value_key (str s) = ok ("string:" +++ s)
  value_key (int n) = ok ("int64:" +++ print_ℤ n)
  value_key (int32 n) = ok ("int32:" +++ print_ℤ n)
  value_key (int64 n) = ok ("int64:" +++ print_ℤ n)
  value_key (float64 x) = ok ("double:" +++ go.format_float x)
  value_key (bytes b) = ok ("binary:" +++ go.base64 b)
  value_key v = err (unsupported_id (go.type_name v))

  abbrev pub key_of : Option (Value F) → Result String
  key_of none = err missing_id
  key_of (some id) = value_key id

  unfoldable pub document_id_key : Doc F → Result String
  unfolding value_key
  document_id_key d = key_of (lookup "_id" d)
