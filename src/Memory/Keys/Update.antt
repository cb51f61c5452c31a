-- ===== src/Memory/Keys/Update.antt =====
-- An update keeps every document under the key of its `_id`, when no model writes `_id`.
use timongo.Memory.Update.{
  after_update, Instant, update_entries, upsert_doc, run_update, update_models, after_entries,
  after_upsert, matched_entry,
}
use timongo.Backend.{UpdateModel, UpdateResult}
use timongo.Prelude.{
  length, none, suc, ok-injective, subst, eqb, ◌&&◌, ℕ, String, Bool, true, false, List, [], ◌∷◌,
  ◌≡◌, refl, ap, ◌∙◌, arith, if◌then◌else◌, Result, ok, err, panic, >>=-eq-ok,
}
use timongo.Prelude.Dict.{Dict, lookup, insert, has}
use text.Mathlib.Text.{◌==◌}
use timongo.Value.{str, Doc}
use timongo.Prelude.Text.{◌+++◌, print_ℤ}
use timongo.Prelude.Int.{ℤ}
use timongo.Go.{Go}
use timongo.Bsonutil.{key_of, document_id_key}
use timongo.Mql.Match.{matches}
use timongo.Mql.Update.{apply_update, operator_style}
use timongo.Mql.Update.Frame.{mentions, apply_update-frame}
use timongo.Memory.Keys.{IsKeyed, insert-IsKeyed}

module _ {F : Type 0} ⦃go : Go F⦄ where
  -- An update that has operators, and none of them names `_id`.
  abbrev pub SparesId : UpdateModel F → Type 0
  SparesId model = (operator_style model.update ≡ true) × (mentions "_id" model.update ≡ false)

  key-apply_update :
      (now : ℤ) (model : UpdateModel F) (d next : Doc F)
      → SparesId model
      → apply_update now d model.update ≡ ok next
      → document_id_key next ≡ document_id_key d
  unfolding document_id_key
  key-apply_update now model d next spares e =
      ap key_of (apply_update-frame now "_id" d next model.update spares.0 spares.1 e)

  lookup-matched_entry :
      (r : Result (Doc F)) (multi : Bool) (rest : Dict (Doc F) × Result ℕ) (key k : String)
      (d : Doc F) (coll : Dict (Doc F))
      → (key == k) ≡ false
      → lookup k coll ≡ none
      → lookup k rest.0 ≡ none
      → lookup k (matched_entry r multi rest key d coll).0 ≡ none
  unfolding lookup
  lookup-matched_entry (ok next) multi rest key k d coll other h h' = ground arith
  lookup-matched_entry (err e) multi rest key k d coll other h h' = ground arith
  lookup-matched_entry panic multi rest key k d coll other h h' = ground arith

  lookup-update_entries :
      (now : ℕ → ℤ) (model : UpdateModel F) (k : String) (coll : Dict (Doc F))
      → lookup k coll ≡ none
      → lookup k (update_entries now model coll).0 ≡ none
  unfolding update_entries lookup
  lookup-update_entries now model k [] h = refl
  lookup-update_entries now model k ((key, d) ∷ coll) h = ground (
    arith,
    lookup-update_entries now model k coll,
    lookup-matched_entry (apply_update (now (length coll)) d model.update) model.multi
        (update_entries now model coll) key k d coll,
  )

  matched_entry-IsKeyed :
      (r : Result (Doc F)) (multi : Bool) (rest : Dict (Doc F) × Result ℕ) (key : String)
      (d : Doc F) (coll : Dict (Doc F))
      → ((next : Doc F) → r ≡ ok next → document_id_key next ≡ document_id_key d)
      → IsKeyed ((key, d) ∷ coll)
      → lookup key rest.0 ≡ none
      → IsKeyed rest.0
      → IsKeyed (matched_entry r multi rest key d coll).0
  matched_entry-IsKeyed (ok next) true rest key d coll same h fresh hr =
      (same next refl ∙ h.0, fresh, hr)
  matched_entry-IsKeyed (ok next) false rest key d coll same h fresh hr =
      (same next refl ∙ h.0, h.1, h.2)
  matched_entry-IsKeyed (err e) multi rest key d coll same h fresh hr = h
  matched_entry-IsKeyed panic multi rest key d coll same h fresh hr = h

  if_matched-IsKeyed :
      (test : Bool) (r r' : Dict (Doc F) × Result ℕ)
      → IsKeyed r.0
      → IsKeyed r'.0
      → IsKeyed (if test then r else r').0
  if_matched-IsKeyed true r r' h h' = h
  if_matched-IsKeyed false r r' h h' = h'

  update_entries-IsKeyed :
      (now : ℕ → ℤ) (model : UpdateModel F) (coll : Dict (Doc F))
      → SparesId model
      → IsKeyed coll
      → IsKeyed (update_entries now model coll).0
  unfolding update_entries
  update_entries-IsKeyed now model [] spares h = tt
  update_entries-IsKeyed now model ((key, d) ∷ coll) spares h =
      let rest = update_entries now model coll in
      let fresh = lookup-update_entries now model key coll h.1 in
      let rest_keyed = update_entries-IsKeyed now model coll spares h.2 in
      if_matched-IsKeyed (matches d model.filter) _ _
        (matched_entry-IsKeyed (apply_update (now (length coll)) d model.update) model.multi rest
          key d coll (λ next e. key-apply_update (now (length coll)) model d next spares e) h fresh
          rest_keyed)
        (h.0, fresh, rest_keyed)

  upsert_doc-keyed :
      (now : Instant) (model : UpdateModel F) (key : String) (d : Doc F)
      → upsert_doc now model ≡ ok (key, d)
      → document_id_key d ≡ ok key
  unfolding upsert_doc
  upsert_doc-keyed now model key d h =
      let (d₀, _, h') = >>=-eq-ok (apply_update now.upsert_millis model.filter model.update) _ h in
      let d₁ =
        if has "_id" d₀ then d₀ else insert "_id" (str ("upsert-" +++ print_ℤ now.nanos)) d₀ in
      let (key', found, same) = >>=-eq-ok (document_id_key d₁) _ h' in
      let pair : Path (String × Doc F) (key', d₁) (key, d) = ok-injective same in
      subst (λ (p : String × Doc F). document_id_key p.1 ≡ ok p.0) pair found

  after_upsert-IsKeyed :
      (u : Result (String × Doc F)) (coll : Dict (Doc F)) (r : UpdateResult F)
      → ((key : String) (d : Doc F) → u ≡ ok (key, d) → document_id_key d ≡ ok key)
      → IsKeyed coll
      → IsKeyed (after_upsert u coll r).0
  after_upsert-IsKeyed (ok (key, d)) coll r found h = insert-IsKeyed key d coll (found key d refl) h
  after_upsert-IsKeyed (err e) coll r found h = h
  after_upsert-IsKeyed panic coll r found h = h

  if-IsKeyed :
      (test : Bool) (r r' : Dict (Doc F) × Result (UpdateResult F))
      → IsKeyed r.0
      → IsKeyed r'.0
      → IsKeyed (if test then r else r').0
  if-IsKeyed true r r' h h' = h
  if-IsKeyed false r r' h h' = h'

  after_entries-IsKeyed :
      (now : Instant) (model : UpdateModel F) (coll : Dict (Doc F)) (m : Result ℕ)
      (r : UpdateResult F)
      → IsKeyed coll
      → IsKeyed (after_entries now model (coll, m) r).0
  after_entries-IsKeyed now model coll (ok n) r h =
      if-IsKeyed (eqb n 0 && model.upsert) _ _
        (after_upsert-IsKeyed (upsert_doc now model) coll r (upsert_doc-keyed now model) h) h
  after_entries-IsKeyed now model coll (err e) r h = h
  after_entries-IsKeyed now model coll panic r h = h

  run_update-IsKeyed :
      (now : Instant) (model : UpdateModel F) (coll : Dict (Doc F)) (r : UpdateResult F)
      → SparesId model
      → IsKeyed coll
      → IsKeyed (run_update now model coll r).0
  unfolding run_update
  run_update-IsKeyed now model coll r spares h =
      after_entries-IsKeyed now model (update_entries now.millis model coll).0
        (update_entries now.millis model coll).1 r
        (update_entries-IsKeyed now.millis model coll spares h)

  abbrev pub AllSpareId : List (UpdateModel F) → Type 0
  AllSpareId [] = Unit {0}
  AllSpareId (model ∷ models) = SparesId model × AllSpareId models

  after_update-IsKeyed :
      (p : Dict (Doc F) × Result (UpdateResult F))
      (next : Dict (Doc F) → UpdateResult F → Dict (Doc F) × Result (UpdateResult F))
      → IsKeyed p.0
      → ((r : UpdateResult F) → IsKeyed (next p.0 r).0)
      → IsKeyed (after_update p next).0
  after_update-IsKeyed (coll, ok r) next h ih = ih r
  after_update-IsKeyed (coll, err e) next h ih = h
  after_update-IsKeyed (coll, panic) next h ih = h

  pub update_models-IsKeyed :
      (clock : ℕ → Instant) (i : ℕ) (models : List (UpdateModel F)) (coll : Dict (Doc F))
      (r : UpdateResult F)
      → AllSpareId models
      → IsKeyed coll
      → IsKeyed (update_models clock i models coll r).0
  unfolding update_models
  update_models-IsKeyed clock i [] coll r spares h = h
  update_models-IsKeyed clock i (model ∷ models) coll r spares h =
      let kept = run_update-IsKeyed (clock i) model coll r spares.0 h in
      after_update-IsKeyed (run_update (clock i) model coll r) (update_models clock (suc i) models)
        kept
        λ r'.
          update_models-IsKeyed clock (suc i) models (run_update (clock i) model coll r).0 r'
            spares.1 kept
