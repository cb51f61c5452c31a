-- ===== src/Memory/Delete.antt =====
-- internal/backend/memory/memory.go: `Delete`.
pub mod Laws
use timongo.Prelude.{String, Bool, ℕ, suc, ◌+◌, List, [], ◌∷◌, if◌then◌else◌, Option, none, some}
use timongo.Prelude.Int.{ℤ, pos, eqb_ℤ}
use timongo.Prelude.Dict.{Dict, lookup, insert}
use timongo.Value.{Doc}
use timongo.Go.{Go}
use timongo.Mql.Match.{matches}
use timongo.Backend.{DeleteModel}
use timongo.Memory.Store.{Store, namespace}

module _ {F : Type 0} ⦃go : Go F⦄ where
  -- The loop over the entries: the entries that stay, and how many went. `just_one` ends the loop
  -- at the first match.
  unfoldable pub delete_entries : Bool → Doc F → Dict (Doc F) → Dict (Doc F) × ℕ
  delete_entries just_one f [] = ([], 0)
  delete_entries just_one f ((key, d) ∷ coll) =
      let (kept, n) = delete_entries just_one f coll in
      if matches d f then (if just_one then (coll, 1) else (kept, suc n)) else ((key, d) ∷ kept, n)

  -- The loop over the delete models.
  unfoldable pub delete_models : List (DeleteModel F) → Dict (Doc F) → Dict (Doc F) × ℕ
  unfolding delete_entries
  delete_models [] coll = (coll, 0)
  delete_models (model ∷ models) coll =
      let (coll', n) = delete_entries (eqb_ℤ model.limit (pos 1)) model.filter coll in
      let (coll'', m) = delete_models models coll' in (coll'', n + m)

  unfoldable pub delete_from :
      String → List (DeleteModel F) → Store F → Option (Dict (Doc F)) → Store F × ℕ
  unfolding delete_models
  delete_from ns models s none = (s, 0)
  delete_from ns models s (some coll) =
      let (coll', n) = delete_models models coll in
      (record s { collections = insert ns coll' s.collections }, n)

  unfoldable pub delete_many : String → String → List (DeleteModel F) → Store F → Store F × ℕ
  unfolding delete_from
  delete_many db collection models s =
      let ns = namespace db collection in delete_from ns models s (lookup ns s.collections)
