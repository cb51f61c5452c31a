-- ===== src/Memory/Update/Laws.antt =====
-- What `Update` changes.
use timongo.Memory.Store.Laws.{documents-open_collection}
use text.Mathlib.Text.{◌==◌}
use timongo.Prelude.{
  String, Bool, true, false, ℕ, suc, [], ◌∷◌, ◌≡◌, refl, ap, ◌∙◌, sym, arith, if◌then◌else◌, Result,
  ok, err, panic, >>=-eq-ok, ok-injective, length, subst, eqb, ◌&&◌, eq_refl,
}
use timongo.Prelude.Int.{ℤ}
use timongo.Prelude.Dict.{Dict}
use timongo.Value.{Doc}
use timongo.Go.{Go}
use timongo.Backend.{UpdateModel, UpdateResult}
use timongo.Mql.Match.{matches}
use timongo.Mql.Update.{apply_update}
use timongo.Memory.Store.{Store, namespace, documents}
use timongo.Memory.Read.{count, matching}
use timongo.Memory.Read.Laws.{count-eq-length}
use timongo.Memory.Keys.Documents.{documents-update_many}
use timongo.Memory.Update.{
  leaves_arrays, Instant, matched_entry, skipped, update_entries, run_update, after_entries,
  after_update, update_models, update_many, no_updates, add_matched, upsert_doc, after_upsert,
}

module _ {F : Type 0} ⦃go : Go F⦄ where
  -- What the update makes of one document.
  abbrev pub updated : ℤ → UpdateModel F → Doc F → Result (Doc F)
  updated now model d = if matches d model.filter then apply_update now d model.update else ok d

  -- The entries of two collections in pairs: one key, and the second document is what the update
  -- makes of the first.
  abbrev pub AllUpdated : (ℕ → ℤ) → UpdateModel F → Dict (Doc F) → Dict (Doc F) → Type 0
  AllUpdated now model [] [] = Unit {0}
  AllUpdated now model [] (_ ∷ _) = ⊥
  AllUpdated now model (_ ∷ _) [] = ⊥
  AllUpdated now model ((k, d) ∷ coll) ((k', d') ∷ coll') =
      (k ≡ k') × (updated (now (length coll)) model d ≡ ok d') × AllUpdated now model coll coll'

  -- One entry, by whether it matches.
  entry-multi :
      (hit multi : Bool) (r : Result (Doc F)) (rest : Dict (Doc F) × Result ℕ) (key : String)
      (d : Doc F) (coll : Dict (Doc F)) (n : ℕ)
      → multi ≡ true
      → (if hit then matched_entry r multi rest key d coll else skipped rest key d).1 ≡ ok n
      → (m : ℕ) × (next : Doc F) × (rest.1 ≡ ok m)
        × (n ≡ (if hit then suc m else m))
        × (Path (Result (Doc F)) (if hit then r else ok d) (ok next))
        × ((if hit then matched_entry r multi rest key d coll else skipped rest key d).0
            ≡ (key, next) ∷ rest.0)
  entry-multi true true (ok next) rest key d coll n multi h =
      let (m, found, same) = >>=-eq-ok rest.1 _ h in
      (m, next, found, sym (ok-injective same), refl, refl)
  entry-multi true true (err e) rest key d coll n multi h = cc
  entry-multi true true panic rest key d coll n multi h = cc
  entry-multi true false r rest key d coll n multi h = cc
  entry-multi false multi r rest key d coll n _ h = (n, d, h, refl, refl, refl)

  update_entries-multi :
      (now : ℕ → ℤ) (model : UpdateModel F) (coll : Dict (Doc F)) (n : ℕ)
      → model.multi ≡ true
      → (update_entries now model coll).1 ≡ ok n
      → (n ≡ length (matching model.filter coll))
        × AllUpdated now model coll (update_entries now model coll).0
  unfolding update_entries
  update_entries-multi now model [] n multi h = (sym (ok-injective h), tt)
  update_entries-multi now model ((key, d) ∷ coll) n multi h =
      let rest = update_entries now model coll in
      let (m, next, found, counted_by, made, shape) =
        entry-multi (matches d model.filter) model.multi
          (apply_update (now (length coll)) d model.update) rest key d coll n multi h in
      let (length_rest, all_rest) = update_entries-multi now model coll m multi found in
      (
        ground (arith, length_rest, counted_by),
        subst (λ c. AllUpdated now model ((key, d) ∷ coll) c) (sym shape) (refl, made, all_rest),
      )

  otherwise :
      (test : Bool) (p q : Dict (Doc F) × Result (UpdateResult F))
      → test ≡ false
      → (if test then p else q) ≡ q
  otherwise true p q h = cc
  otherwise false p q h = refl

  run-multi :
      (now : Instant) (model : UpdateModel F) (coll : Dict (Doc F)) (m : Result ℕ)
      (r result : UpdateResult F)
      → model.upsert ≡ false
      → (after_entries now model (coll, m) r).1 ≡ ok result
      → (n : ℕ) × (m ≡ ok n)
        × (result ≡ add_matched n r)
        × ((after_entries now model (coll, m) r).0 ≡ coll)
  run-multi now model coll (ok n) r result plain h =
      let plainly : (eqb n 0 && model.upsert) ≡ false = ground (arith, plain) in
      let same =
        otherwise (eqb n 0 && model.upsert) (after_upsert (upsert_doc now model) coll r)
          (coll, ok (add_matched n r)) plainly in
      (n, refl, sym (ok-injective (sym (ap (λ p. p.1) same) ∙ h)), ap (λ p. p.0) same)
  run-multi now model coll (err e) r result plain h = cc
  run-multi now model coll panic r result plain h = cc

  one_model :
      (p : Dict (Doc F) × Result (UpdateResult F)) (clock : ℕ → Instant)
      → after_update p (update_models clock 1 []) ≡ p
  unfolding update_models
  one_model (coll, ok r) clock = refl
  one_model (coll, err e) clock = refl
  one_model (coll, panic) clock = refl

  models-one :
      (clock : ℕ → Instant) (model : UpdateModel F) (coll : Dict (Doc F))
      → update_models clock 0 (model ∷ []) coll no_updates
        ≡ after_entries (clock 0) model (update_entries (clock 0).millis model coll) no_updates
  unfolding update_models run_update
  models-one clock model coll = one_model (run_update (clock 0) model coll no_updates) clock

module _ {F : Type 0} ⦃go : Go F⦄ (clock : ℕ → Instant) (db collection : String)
    (model : UpdateModel F) (s : Store F) where
  abbrev ns : String
  ns = namespace db collection

  abbrev called : Store F × Result (UpdateResult F)
  called = update_many clock db collection (model ∷ []) s

  result-update_many : called.1 ≡ (update_models clock 0 (model ∷ []) (documents ns s) no_updates).1
  unfolding update_many
  result-update_many = rw (documents-open_collection ns ns s) refl

  -- A successful `Update` with one model that is for many documents, does not upsert and has neither
  -- `$push` nor `$addToSet` reports the number of documents that matched as matched and as modified,
  -- each of them has become what `ApplyUpdate` makes of it, under the same key and at the time that
  -- was read for it, and every other document and collection is as it was.
  pub update_many-multi :
      (result : UpdateResult F)
      → model.multi ≡ true
      → model.upsert ≡ false
      → leaves_arrays model ≡ true
      → called.1 ≡ ok result
      → (result.matched ≡ count db collection model.filter s)
        × (result.modified ≡ result.matched)
        × AllUpdated (clock 0).millis model (documents ns s) (documents ns called.0)
        × ((ns' : String)
            → documents ns' called.0
              ≡ (if ns == ns' then documents ns called.0 else documents ns' s))
  update_many-multi result multi plain apart success =
      let before = documents ns s in
      let entries = update_entries (clock 0).millis model before in
      let one = models-one clock model before in
      let (n, found, made, same) =
        run-multi (clock 0) model entries.0 entries.1 no_updates result plain
          (sym (ap (λ p. p.1) one) ∙ sym result-update_many ∙ success) in
      let (matched, all_updated) =
        update_entries-multi (clock 0).millis model before n multi found in
      let number : result.matched ≡ n = ap (λ r. r.matched) made ∙ omega arith in
      let there = documents-update_many db collection s clock (model ∷ []) in
      let after : documents ns called.0 ≡ entries.0 =
        there ns ∙ rw (eq_refl ns) (ap (λ p. p.0) one ∙ same) in
      (
        number ∙ matched ∙ sym (count-eq-length db collection model.filter s),
        rw made refl,
        subst (λ c. AllUpdated (clock 0).millis model before c) (sym after) all_updated,
        λ ns'. rw (there ns', there ns, eq_refl ns) refl,
      )
