-- ===== src/Memory/Update.antt =====
-- internal/backend/memory/memory.go: `Update`.
--
-- `time.Now` is read for `$currentDate`, anew for each document, and for the `_id` of an upsert. The
-- update at index `i` of the request reads the times of `clock i`: `millis n` for a document with `n`
-- others behind it in the loop, `upsert_millis` and `nanos` for the document of an upsert.
--
-- `cloneDoc` copies the fields of a document and not its arrays. A document of the model is a value:
-- that a `$push` or an `$addToSet` writes into an array that another document holds as well is not
-- modelled, and the theorems on what other documents keep leave out updates with these operators.
pub mod Laws
use timongo.Prelude.{
  String, Bool, ℕ, suc, ◌+◌, List, [], ◌∷◌, ◌++◌, if◌then◌else◌, Result, ok, err, panic, ◌>>=◌, eqb,
  ◌&&◌, ◌||◌, not, length,
}
use timongo.Prelude.Int.{ℤ, pos}
use timongo.Prelude.Text.{◌+++◌, print_ℤ}
use timongo.Prelude.Dict.{Dict, insert, has}
use timongo.Value.{str, int32, Doc}
use timongo.Go.{Go}
use timongo.Mql.Match.{matches}
use timongo.Mql.Update.{apply_update}
use timongo.Mql.Update.Operators.{get}
use timongo.Bsonutil.{document_id_key}
use timongo.Backend.{UpdateModel, UpdateResult}
use timongo.Memory.Store.{Store, namespace, open_collection, documents}

pub record Instant : Type 0 where
  pub millis : ℕ → ℤ
  pub upsert_millis : ℤ
  pub nanos : ℤ

module _ {F : Type 0} ⦃go : Go F⦄ where
  abbrev pub counted : (Dict (Doc F) × Result ℕ) → String → Doc F → Dict (Doc F) × Result ℕ
  counted r key d = ((key, d) ∷ r.0, r.1 >>= λ n. ok (suc n))

  abbrev pub skipped : (Dict (Doc F) × Result ℕ) → String → Doc F → Dict (Doc F) × Result ℕ
  skipped r key d = ((key, d) ∷ r.0, r.1)

  -- An entry that matches, by what `ApplyUpdate` returns for it.
  abbrev pub matched_entry :
      Result (Doc F)
      → Bool
      → (Dict (Doc F) × Result ℕ)
      → String
      → Doc F
      → Dict (Doc F)
      → Dict (Doc F) × Result ℕ
  matched_entry (ok next) multi rest key d coll =
      if multi then counted rest key next else ((key, next) ∷ coll, ok 1)
  matched_entry (err e) multi rest key d coll = ((key, d) ∷ coll, err e)
  matched_entry panic multi rest key d coll = ((key, d) ∷ coll, panic)

  -- Whether an update writes into no array that another document may hold as well.
  abbrev pub leaves_arrays : UpdateModel F → Bool
  leaves_arrays model = not (has "$push" model.update || has "$addToSet" model.update)

  -- The loop over the entries: the collection after it, and how many entries matched. An error
  -- leaves the entries behind it as they are.
  unfoldable pub update_entries : (ℕ → ℤ) → UpdateModel F → Dict (Doc F) → Dict (Doc F) × Result ℕ
  update_entries now model [] = ([], ok 0)
  update_entries now model ((key, d) ∷ coll) =
      let rest = update_entries now model coll in
      if matches d model.filter
      then matched_entry (apply_update (now (length coll)) d model.update) model.multi rest key d
          coll
      else skipped rest key d

  -- The document that an upsert stores, with its key.
  unfoldable pub upsert_doc : Instant → UpdateModel F → Result (String × Doc F)
  upsert_doc now model = do
    d ← apply_update now.upsert_millis model.filter model.update
    let d' = if has "_id" d then d else insert "_id" (str ("upsert-" +++ print_ℤ now.nanos)) d
    key ← document_id_key d'
    ok (key, d')

  abbrev pub add_matched : ℕ → UpdateResult F → UpdateResult F
  add_matched n r = record r { matched = r.matched + n; modified = r.modified + n }

  abbrev pub add_upserted : Doc F → UpdateResult F → UpdateResult F
  add_upserted d r = record {
    matched = r.matched + 1;
    modified = r.modified + 1;
    upserted = r.upserted ++ (("index", int32 (pos 0)) ∷ ("_id", get "_id" d) ∷ []) ∷ [];
  }

  abbrev pub after_upsert :
      Result (String × Doc F)
      → Dict (Doc F)
      → UpdateResult F
      → Dict (Doc F) × Result (UpdateResult F)
  after_upsert (ok (key, d)) coll r = (insert key d coll, ok (add_upserted d r))
  after_upsert (err e) coll r = (coll, err e)
  after_upsert panic coll r = (coll, panic)

  abbrev pub after_entries :
      Instant
      → UpdateModel F
      → Dict (Doc F) × Result ℕ
      → UpdateResult F
      → Dict (Doc F) × Result (UpdateResult F)
  after_entries now model (coll, ok n) r =
      if eqb n 0 && model.upsert
      then after_upsert (upsert_doc now model) coll r
      else (coll, ok (add_matched n r))
  after_entries now model (coll, err e) r = (coll, err e)
  after_entries now model (coll, panic) r = (coll, panic)

  -- One round of the loop over the updates.
  unfoldable pub run_update :
      Instant
      → UpdateModel F
      → Dict (Doc F)
      → UpdateResult F
      → Dict (Doc F) × Result (UpdateResult F)
  unfolding update_entries upsert_doc
  run_update now model coll r = after_entries now model (update_entries now.millis model coll) r

  -- The loop goes on only after a round that succeeds.
  abbrev pub after_update :
      Dict (Doc F) × Result (UpdateResult F)
      → (Dict (Doc F) → UpdateResult F → Dict (Doc F) × Result (UpdateResult F))
      → Dict (Doc F) × Result (UpdateResult F)
  after_update (coll, ok r) next = next coll r
  after_update (coll, err e) next = (coll, err e)
  after_update (coll, panic) next = (coll, panic)

  unfoldable pub update_models :
      (ℕ → Instant)
      → ℕ
      → List (UpdateModel F)
      → Dict (Doc F)
      → UpdateResult F
      → Dict (Doc F) × Result (UpdateResult F)
  unfolding run_update
  update_models clock i [] coll r = (coll, ok r)
  update_models clock i (model ∷ models) coll r =
      after_update (run_update (clock i) model coll r) (update_models clock (suc i) models)

  abbrev pub no_updates : UpdateResult F
  no_updates = record { matched = 0; modified = 0; upserted = [] }

  unfoldable pub update_many :
      (ℕ → Instant)
      → String
      → String
      → List (UpdateModel F)
      → Store F
      → Store F × Result (UpdateResult F)
  unfolding update_models open_collection
  update_many clock db collection models s =
      let ns = namespace db collection in
      let s' = open_collection ns s in
      let (coll, r) = update_models clock 0 models (documents ns s') no_updates in
      (record s' { collections = insert ns coll s'.collections }, r)
