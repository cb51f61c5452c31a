-- ===== src/Wire/Values/Laws.antt =====
-- What the conversions of internal/wire/server.go keep.
use timongo.Prelude.{true_left, true_right, Bool, true, false, [], ◌≡◌, refl, ok, ◌&&◌}
use timongo.Prelude.Dict.{insert}
use timongo.Value.{
  Value, Fields, Values, null, bool, int, int32, int64, float32, float64, str, object_id, date_time,
  bytes, doc, map_any, ordered, arr, slice, docs, other, field, end, nil, cons, Doc,
}
use timongo.Bsonutil.Normalize.{normalize, collect, normalize_items}
use timongo.Wire.Values.{normalize_driver_value, collect_driver, normalize_driver_items}

module _ {F : Type 0} where
  -- What the driver decodes: documents as `bson.D`.
  unfoldable mutual
    pub is_decoded : Value F → Bool
    is_decoded (doc m) = false
    is_decoded (ordered d) = decoded_fields d
    is_decoded (arr a) = decoded_items a
    is_decoded (slice a) = decoded_items a
    is_decoded v = true

    pub decoded_fields : Fields F → Bool
    decoded_fields end = true
    decoded_fields (field key v d) = is_decoded v && decoded_fields d

    pub decoded_items : Values F → Bool
    decoded_items nil = true
    decoded_items (cons v a) = is_decoded v && decoded_items a

  mutual
    unfolding normalize normalize_driver_value is_decoded

    driver_value_normal :
        (v : Value F) → is_decoded v ≡ true → normalize_driver_value v ≡ ok (normalize v)
    driver_value_normal (doc m) h = cc
    driver_value_normal (ordered d) h = rw (collect_driver_normal d [] h) refl
    driver_value_normal (arr a) h = rw (driver_items_normal a h) refl
    driver_value_normal (slice a) h = rw (driver_items_normal a h) refl
    driver_value_normal null h = refl
    driver_value_normal (bool b) h = refl
    driver_value_normal (int n) h = refl
    driver_value_normal (int32 n) h = refl
    driver_value_normal (int64 n) h = refl
    driver_value_normal (float32 x) h = refl
    driver_value_normal (float64 x) h = refl
    driver_value_normal (str s) h = refl
    driver_value_normal (object_id id) h = refl
    driver_value_normal (date_time n) h = refl
    driver_value_normal (bytes b) h = refl
    driver_value_normal (map_any m) h = refl
    driver_value_normal (docs ds) h = refl
    driver_value_normal (other name) h = refl

    collect_driver_normal :
        (d : Fields F) (acc : Doc F)
        → decoded_fields d ≡ true
        → collect_driver d acc ≡ ok (collect d acc)
    collect_driver_normal end acc h = refl
    collect_driver_normal (field key v d) acc h =
        rw (driver_value_normal v (true_left (is_decoded v) (decoded_fields d) h)) (
          collect_driver_normal d (insert key (normalize v) acc)
            (true_right (is_decoded v) (decoded_fields d) h))

    driver_items_normal :
        (a : Values F) → decoded_items a ≡ true → normalize_driver_items a ≡ ok (normalize_items a)
    driver_items_normal nil h = refl
    driver_items_normal (cons v a) h =
        rw
          (
            driver_value_normal v (true_left (is_decoded v) (decoded_items a) h),
            driver_items_normal a (true_right (is_decoded v) (decoded_items a) h),
          )
          refl

  -- The normal form of a value as the driver decodes it, with every document a `bson.D`, is the one
  -- of internal/bsonutil, and never an error.
  pub normalize_driver-eq :
      (v : Value F) → is_decoded v ≡ true → normalize_driver_value v ≡ ok (normalize v)
  normalize_driver-eq v h = driver_value_normal v h
