-- ===== src/Wire/Values.antt =====
-- internal/wire/server.go: between the commands and replies of the handler and the documents of the
-- driver: `toBSOND`, `toDriverValue`, `normalizeDriverDoc`, `normalizeDriverValue`.
pub mod Laws
use text.Mathlib.Text.{◌==◌}
use timongo.Prelude.{
  String, Bool, List, [], ◌∷◌, ◌++◌, Option, none, some, if◌then◌else◌, any, not, filter,
  filter_map, Result, ok, err, ◌>>=◌, library_error,
}
use timongo.Prelude.Text.{◌+++◌}
use timongo.Prelude.Dict.{Dict, lookup, insert}
use timongo.Value.{
  Value, Fields, Values, null, bool, int, int32, int64, float32, float64, str, object_id, date_time,
  bytes, doc, map_any, ordered, arr, slice, docs, other, field, end, nil, cons, Doc, entries,
  fields,
}
use timongo.Go.{Go}

-- The keys that stand in front of a reply.
abbrev pub leading_keys : List String
leading_keys = "ok" ∷ "errmsg" ∷ "code" ∷ "cursor" ∷ []

abbrev pub is_leading : String → Bool
is_leading key = any (λ k. k == key) leading_keys

module _ {V : Type 0} where
  abbrev pub with_key : String → Option V → Option (String × V)
  with_key key none = none
  with_key key (some v) = some (key, v)

  -- The order that `toBSOND` writes the fields of a map in.
  unfoldable pub leading_first : Dict V → Dict V
  leading_first d =
      filter_map (λ k. with_key k (lookup k d)) leading_keys ++ filter (λ e. not (is_leading e.0)) d

module _ {F : Type 0} where
  unfoldable mutual
    unfolding leading_first

    -- `toDriverValue(value)`
    pub driver_value : Value F → Value F
    driver_value (doc m) = ordered (fields (leading_first (entries (driver_fields m))))
    driver_value (arr a) = arr (driver_items a)
    driver_value v = v

    pub driver_fields : Fields F → Fields F
    driver_fields end = end
    driver_fields (field key v m) = field key (driver_value v) (driver_fields m)

    pub driver_items : Values F → Values F
    driver_items nil = nil
    driver_items (cons v a) = cons (driver_value v) (driver_items a)

  -- `toBSOND(doc)`: the fields of the `bson.D`.
  unfoldable pub to_bsond : Doc F → Doc F
  unfolding driver_value leading_first
  to_bsond d = leading_first (entries (driver_fields (fields d)))

  -- `normalizeDriverValue(v)`: a `bson.M` in a value is left as it is.
  unfoldable mutual
    pub normalize_driver_value : Value F → Result (Value F)
    normalize_driver_value (ordered d) = do m ← collect_driver d []; ok (doc (fields m))
    normalize_driver_value (arr a) = do b ← normalize_driver_items a; ok (arr b)
    normalize_driver_value (slice a) = do b ← normalize_driver_items a; ok (arr b)
    normalize_driver_value v = ok v

    -- The loop over a `bson.D`, which writes into a map.
    pub collect_driver : Fields F → Doc F → Result (Doc F)
    collect_driver end acc = ok acc
    collect_driver (field key v d) acc = do
      w ← normalize_driver_value v
      collect_driver d (insert key w acc)

    pub normalize_driver_items : Values F → Result (Values F)
    normalize_driver_items nil = ok nil
    normalize_driver_items (cons v a) = do
      w ← normalize_driver_value v
      b ← normalize_driver_items a
      ok (cons w b)

  -- The loop over a `bson.M`.
  unfoldable pub normalize_map : Fields F → Result (Doc F)
  unfolding normalize_driver_value
  normalize_map end = ok []
  normalize_map (field key v m) = do
    w ← normalize_driver_value v
    rest ← normalize_map m
    ok ((key, w) ∷ rest)

module _ {F : Type 0} ⦃go : Go F⦄ where
  unfoldable pub normalize_driver_doc : Value F → Result (Doc F)
  unfolding normalize_driver_value normalize_map
  normalize_driver_doc (ordered d) = collect_driver d []
  normalize_driver_doc (doc m) = normalize_map m
  normalize_driver_doc v = err (library_error ("document has type " +++ go.type_name v))
