-- ===== src/Bsonutil/Normalize.antt =====
-- internal/bsonutil/bsonutil.go: `normalizeValue`.
use timongo.Prelude.{
  true_left, true_right, arith, Bool, true, false, ◌&&◌, ◌↔◌, subst, String, [], ◌∷◌, ◌≡◌, refl, ap,
  Bool-cases, inl, inr,
}
use text.Mathlib.Text.{◌==◌}
use timongo.Prelude.Dict.{insert}
use timongo.Value.{
  Value, Fields, Values, null, bool, int, int32, int64, float32, float64, str, object_id, date_time,
  bytes, doc, map_any, ordered, arr, slice, docs, other, field, end, nil, cons, Doc, fields,
}

both : (a b : Bool) → a ≡ true → b ≡ true → (a && b) ≡ true
both a b h h' = ground arith

module _ {F : Type 0} where
  unfoldable mutual
    pub normalize : Value F → Value F
    normalize (ordered d) = doc (fields (collect d []))
    normalize (doc m) = doc (normalize_fields m)
    normalize (arr a) = arr (normalize_items a)
    normalize (slice a) = arr (normalize_items a)
    normalize v = v

    -- The loop over a `bson.D`, which may have a key twice: it writes into a map.
    pub collect : Fields F → Doc F → Doc F
    collect end acc = acc
    collect (field key v d) acc = collect d (insert key (normalize v) acc)

    pub normalize_fields : Fields F → Fields F
    normalize_fields end = end
    normalize_fields (field key v m) = field key (normalize v) (normalize_fields m)

    pub normalize_items : Values F → Values F
    normalize_items nil = nil
    normalize_items (cons v a) = cons (normalize v) (normalize_items a)

  -- No `bson.D` and no `[]any` in the value, looking into each `bson.M` and `bson.A`.
  unfoldable mutual
    pub is_normal : Value F → Bool
    is_normal (ordered d) = false
    is_normal (slice a) = false
    is_normal (doc m) = normal_fields m
    is_normal (arr a) = normal_items a
    is_normal v = true

    normal_fields : Fields F → Bool
    normal_fields end = true
    normal_fields (field key v m) = is_normal v && normal_fields m

    normal_items : Values F → Bool
    normal_items nil = true
    normal_items (cons v a) = is_normal v && normal_items a

  insert-normal :
      (key : String) (v : Value F) (d : Doc F)
      → is_normal v ≡ true
      → normal_fields (fields d) ≡ true
      → normal_fields (fields (insert key v d)) ≡ true
  unfolding insert is_normal
  insert-normal key v [] h h' = both (is_normal v) true h refl
  insert-normal key v ((j, w) ∷ d) h h' = elim (Bool-cases (j == key)) [
    | inl same ↦ rw same (
        both (is_normal v) (normal_fields (fields d)) h
          (true_right (is_normal w) (normal_fields (fields d)) h'))
    | inr differ ↦ rw differ (
        both (is_normal w) (normal_fields (fields (insert key v d)))
          (true_left (is_normal w) (normal_fields (fields d)) h')
          (insert-normal key v d h (true_right (is_normal w) (normal_fields (fields d)) h')))
  ]

  mutual
    unfolding normalize is_normal

    is_normal-normalize : (v : Value F) → is_normal (normalize v) ≡ true
    is_normal-normalize (ordered d) = collect-normal d [] refl
    is_normal-normalize (doc m) = normalize_fields-normal m
    is_normal-normalize (arr a) = normalize_items-normal a
    is_normal-normalize (slice a) = normalize_items-normal a
    is_normal-normalize null = refl
    is_normal-normalize (bool b) = refl
    is_normal-normalize (int n) = refl
    is_normal-normalize (int32 n) = refl
    is_normal-normalize (int64 n) = refl
    is_normal-normalize (float32 x) = refl
    is_normal-normalize (float64 x) = refl
    is_normal-normalize (str s) = refl
    is_normal-normalize (object_id id) = refl
    is_normal-normalize (date_time n) = refl
    is_normal-normalize (bytes b) = refl
    is_normal-normalize (map_any m) = refl
    is_normal-normalize (docs ds) = refl
    is_normal-normalize (other name) = refl

    collect-normal :
        (d : Fields F) (acc : Doc F)
        → normal_fields (fields acc) ≡ true
        → normal_fields (fields (collect d acc)) ≡ true
    collect-normal end acc h = h
    collect-normal (field key v d) acc h =
        collect-normal d (insert key (normalize v) acc)
          (insert-normal key (normalize v) acc (is_normal-normalize v) h)

    normalize_fields-normal : (m : Fields F) → normal_fields (normalize_fields m) ≡ true
    normalize_fields-normal end = refl
    normalize_fields-normal (field key v m) =
        both (is_normal (normalize v)) (normal_fields (normalize_fields m)) (is_normal-normalize v)
          (normalize_fields-normal m)

    normalize_items-normal : (a : Values F) → normal_items (normalize_items a) ≡ true
    normalize_items-normal nil = refl
    normalize_items-normal (cons v a) =
        both (is_normal (normalize v)) (normal_items (normalize_items a)) (is_normal-normalize v)
          (normalize_items-normal a)

  mutual
    unfolding normalize is_normal

    fixed : (v : Value F) → is_normal v ≡ true → normalize v ≡ v
    fixed (ordered d) h = cc
    fixed (doc m) h = ap doc (fixed_fields m h)
    fixed (arr a) h = ap arr (fixed_items a h)
    fixed (slice a) h = cc
    fixed null h = refl
    fixed (bool b) h = refl
    fixed (int n) h = refl
    fixed (int32 n) h = refl
    fixed (int64 n) h = refl
    fixed (float32 x) h = refl
    fixed (float64 x) h = refl
    fixed (str s) h = refl
    fixed (object_id id) h = refl
    fixed (date_time n) h = refl
    fixed (bytes b) h = refl
    fixed (map_any m) h = refl
    fixed (docs ds) h = refl
    fixed (other name) h = refl

    fixed_fields : (m : Fields F) → normal_fields m ≡ true → normalize_fields m ≡ m
    fixed_fields end h = refl
    fixed_fields (field key v m) h =
        rw
          (
            fixed v (true_left (is_normal v) (normal_fields m) h),
            fixed_fields m (true_right (is_normal v) (normal_fields m) h),
          )
          refl

    fixed_items : (a : Values F) → normal_items a ≡ true → normalize_items a ≡ a
    fixed_items nil h = refl
    fixed_items (cons v a) h =
        rw
          (
            fixed v (true_left (is_normal v) (normal_items a) h),
            fixed_items a (true_right (is_normal v) (normal_items a) h),
          )
          refl

  -- A normalised value has no `bson.D` and no `[]any` in any `bson.M` or `bson.A` of it, and a
  -- value that has none is its own normal form.
  pub normalize_iff :
      (v : Value F) → (is_normal (normalize v) ≡ true) × ((normalize v ≡ v) ↔ (is_normal v ≡ true))
  normalize_iff v = (
    is_normal-normalize v,
    (λ same. subst (λ w. is_normal w ≡ true) same (is_normal-normalize v), fixed v),
  )
