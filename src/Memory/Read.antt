-- ===== src/Memory/Read.antt =====
-- internal/backend/memory/memory.go: `Find`, `Count`, `Distinct` and `Aggregate`.
pub mod Laws
use timongo.Prelude.{
  String, ℕ, Bool, true, false, List, [], ◌∷◌, ◌++◌, Option, none, some, map, filter, any, length,
  if◌then◌else◌, Result, ok, panic, ◌>>=◌, eqb, ◌&&◌,
}
use timongo.Prelude.Int.{ℤ, pos, eqb_ℤ}
use timongo.Prelude.Dict.{Dict, lookup}
use text.Mathlib.Text.{◌==◌}
use timongo.Value.{
  Value, null, bool, int, int32, int64, float32, float64, str, object_id, date_time, bytes, doc,
  map_any, ordered, arr, slice, docs, other, Doc,
}
use timongo.Go.{Go}
use timongo.Mql.Match.{matches}
use timongo.Mql.Options.{apply_find_options}
use timongo.Mql.Pipeline.{apply_pipeline}
use timongo.Backend.{FindRequest}
use timongo.Memory.Store.{Store, namespace, documents}

eqb_bytes : List ℕ → List ℕ → Bool
eqb_bytes [] [] = true
eqb_bytes (a ∷ as_) (b ∷ bs) = eqb a b && eqb_bytes as_ bs
eqb_bytes _ _ = false

eqb_bool : Bool → Bool → Bool
eqb_bool true b = b
eqb_bool false true = false
eqb_bool false false = true

module _ {F : Type 0} ⦃go : Go F⦄ where
  abbrev pub matching : Doc F → Dict (Doc F) → List (Doc F)
  matching f coll = filter (λ d. matches d f) (map (λ e. e.1) coll)

  -- A collection that is not there reads as one with no documents.
  unfoldable pub find : String → String → FindRequest F → Store F → List (Doc F)
  find db collection req s =
      apply_find_options (matching req.filter (documents (namespace db collection) s)) (record {
        projection = req.projection;
        sort = req.sort;
        skip = req.skip;
        limit = req.limit;
      })

  -- A request with a filter alone.
  abbrev pub by_filter : Doc F → FindRequest F
  by_filter f = record { filter = f; projection = []; sort = []; skip = pos 0; limit = pos 0 }

  unfoldable pub count : String → String → Doc F → Store F → ℕ
  unfolding find
  count db collection f s = length (find db collection (by_filter f) s)

  -- Go's `==` on two values that can be a map's keys: one type, and equal values of it.
  unfoldable pub identical : Value F → Value F → Bool
  unfolding eqb_bytes eqb_bool
  identical null null = true
  identical (bool a) (bool b) = eqb_bool a b
  identical (int a) (int b) = eqb_ℤ a b
  identical (int32 a) (int32 b) = eqb_ℤ a b
  identical (int64 a) (int64 b) = eqb_ℤ a b
  identical (float32 a) (float32 b) = go.same a b
  identical (float64 a) (float64 b) = go.same a b
  identical (str a) (str b) = a == b
  identical (object_id a) (object_id b) = eqb_bytes a b
  identical (date_time a) (date_time b) = eqb_ℤ a b
  identical (other a) (other b) = go.same_other a b
  identical _ _ = false

  -- Maps and slices cannot be keys of a map: to use one as a key panics.
  unfoldable pub hashable : Value F → Bool
  hashable (bytes b) = false
  hashable (doc m) = false
  hashable (map_any m) = false
  hashable (ordered m) = false
  hashable (arr a) = false
  hashable (slice a) = false
  hashable (docs a) = false
  hashable (other a) = go.hashable_other a
  hashable _ = true

  abbrev pub add_value : Option (Value F) → List (Value F) → Result (List (Value F))
  add_value none seen = ok seen
  add_value (some v) seen =
      if hashable v
      then ok (if any (λ w. identical w v) seen then seen else seen ++ v ∷ [])
      else panic

  -- The loop of `Distinct`. The values seen are those returned so far.
  unfoldable pub distinct_values : String → List (Doc F) → List (Value F) → Result (List (Value F))
  unfolding hashable identical
  distinct_values key [] seen = ok seen
  distinct_values key (d ∷ ds) seen = do
    seen' ← add_value (lookup key d) seen
    distinct_values key ds seen'

  unfoldable pub distinct : String → String → String → Doc F → Store F → Result (List (Value F))
  unfolding distinct_values
  distinct db collection key f s = distinct_values key (find db collection (by_filter f) s) []

  unfoldable pub aggregate : String → String → List (Value F) → Store F → Result (List (Doc F))
  aggregate db collection pipeline s = apply_pipeline (find db collection (by_filter []) s) pipeline
