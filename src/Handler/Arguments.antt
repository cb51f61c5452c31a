-- ===== src/Handler/Arguments.antt =====
-- internal/handler/handler.go: how a command's fields are read, with `requiredString`,
-- `stringValue`, `int64Value` and `splitNamespace`.
use Prim.Native.Char.{Char, code}
use text.Mathlib.Text.{◌==◌}
use timongo.Prelude.{
  String, ℕ, List, [], ◌∷◌, Option, none, some, Result, ok, err, ◌>>=◌, Error, if◌then◌else◌, ◌||◌,
  ◌%◌, ◌^◌, ◌-◌, ltb, eqb, filter, not,
}
use timongo.Prelude.Int.{ℤ, pos, negsuc}
use timongo.Prelude.Dict.{lookup}
use timongo.Prelude.Text.{◌+++◌}
use timongo.Value.{Value, null, int, int32, int64, float64, doc, arr, Doc, entries, items, truthy}
use timongo.Go.{Go}
use timongo.Mongoerrors.{new, code_bad_value}
use timongo.Mql.Schema.{as_doc_or_nil, text_or_empty}
use timongo.Mql.Update.Operators.{get}
use timongo.Backend.{UpdateModel, DeleteModel, IndexModel, FindRequest}

abbrev pub bad_value : String → Error
bad_value message = new code_bad_value "BadValue" message

-- `strings.Cut(ns, ".")`: the texts in front of the first dot and behind it.
abbrev in_front : Char → Option (String × String) → Option (String × String)
in_front c none = none
in_front c (some (left, right)) = some (String.◌∷◌ c left, right)

unfoldable pub cut_dot : String → Option (String × String)
cut_dot String.[] = none
cut_dot (String.◌∷◌ c s) =
    let rest = cut_dot s in if eqb (code c) b'.' then some ("", s) else in_front c rest

abbrev or_default : Option (String × String) → String → String → String × String
or_default none ns default_db = (default_db, ns)
or_default (some parts) ns default_db = parts

unfoldable pub split_namespace : String → String → String × String
unfolding cut_dot
split_namespace ns default_db = or_default (cut_dot ns) ns default_db

-- `int32(n)` for an `int` that is not negative.
unfoldable pub wrap_int32 : ℕ → ℤ
wrap_int32 n =
    let low = n % 2 ^ 32 in if ltb low (2 ^ 31) then pos low else negsuc (2 ^ 32 - low - 1)

module _ {F : Type 0} where
  abbrev string_or_error : String → Option (Value F) → Result String
  string_or_error key none = err (bad_value ("missing required field " +++ key))
  string_or_error key (some raw) =
      if text_or_empty raw == ""
      then err (bad_value (key +++ " must be a non-empty string"))
      else ok (text_or_empty raw)

  -- A value of another type and an empty text are refused alike.
  unfoldable pub required_string : Doc F → String → Result String
  required_string cmd key = string_or_error key (lookup key cmd)

module _ {F : Type 0} ⦃go : Go F⦄ where
  unfoldable pub int64_value : Value F → ℤ
  int64_value (int32 n) = n
  int64_value (int64 n) = n
  int64_value (int n) = n
  int64_value (float64 x) = go.to_int64 x
  int64_value _ = pos 0

  abbrev pub invalid_type : {A : Type 0} → String → Value F → Result A
  invalid_type what raw = err (bad_value (what +++ " has invalid type " +++ go.type_name raw))

  abbrev doc_or_error : String → Option (Value F) → Result (Doc F)
  doc_or_error key none = ok []
  doc_or_error key (some (doc m)) = ok (entries m)
  doc_or_error key (some raw) = invalid_type key raw

  -- A field that is a document or is not there: `filter`, `query`, `projection`, `sort` and
  -- `validator`.
  unfoldable pub doc_field : Doc F → String → Result (Doc F)
  doc_field cmd key = doc_or_error key (lookup key cmd)

  abbrev array_or_error : String → Option (Value F) → Result (List (Value F))
  array_or_error key none = ok []
  array_or_error key (some (arr a)) = ok (items a)
  array_or_error key (some raw) = invalid_type key raw

  -- `pipeline`: an array or not there.
  unfoldable pub pipeline_field : Doc F → Result (List (Value F))
  pipeline_field cmd = array_or_error "pipeline" (lookup "pipeline" cmd)

  abbrev array_value : String → Value F → Result (List (Value F))
  array_value key (arr a) = ok (items a)
  array_value key raw = err (bad_value (key +++ " must be an array"))

  -- `documents`, `updates`, `deletes` and `indexes`: an array.
  unfoldable pub array_field : Doc F → String → Result (List (Value F))
  array_field cmd key = array_value key (get key cmd)

  abbrev item_doc : String → Value F → Result (Doc F)
  item_doc what (doc m) = ok (entries m)
  item_doc what raw = invalid_type what raw

  -- The loop over such an array, which ends at the first item that is no document.
  unfoldable pub item_docs : String → List (Value F) → Result (List (Doc F))
  item_docs what [] = ok []
  item_docs what (raw ∷ rest) = do d ← item_doc what raw; ds ← item_docs what rest; ok (d ∷ ds)

  unfoldable pub update_model : Doc F → UpdateModel F
  update_model d = record {
    filter = as_doc_or_nil (get "q" d);
    update = as_doc_or_nil (get "u" d);
    multi = truthy (get "multi" d);
    upsert = truthy (get "upsert" d);
  }

  unfoldable pub delete_model : Doc F → DeleteModel F
  unfolding int64_value
  delete_model d = record {
    filter = as_doc_or_nil (get "q" d);
    limit = int64_value (get "limit" d);
  }

  unfoldable pub index_model : Doc F → IndexModel F
  index_model d = record {
    name = text_or_empty (get "name" d);
    key = as_doc_or_nil (get "key" d);
    opts = filter (λ e. not (e.0 == "name" || e.0 == "key")) d;
  }

  -- `limit` of a find: nil is 0, and a float is refused.
  abbrev limit_value : Value F → Result ℤ
  limit_value null = ok (pos 0)
  limit_value (int32 n) = ok n
  limit_value (int64 n) = ok n
  limit_value (int n) = ok n
  limit_value raw = invalid_type "limit" raw

  unfoldable pub find_request : Doc F → Result (FindRequest F)
  unfolding doc_field int64_value
  find_request cmd = do
    f ← doc_field cmd "filter"
    limit ← limit_value (get "limit" cmd)
    projection ← doc_field cmd "projection"
    sort ← doc_field cmd "sort"
    ok (record {
      filter = f;
      projection = projection;
      sort = sort;
      skip = int64_value (get "skip" cmd);
      limit = limit;
    })
