-- ===== src/Memory/Maps.antt =====
-- No operation of the store makes a key stand twice in a collection, whatever the documents are.
pub mod Calls
use timongo.Prelude.{
  length, all, arith, String, ℕ, suc, Bool, true, false, List, [], ◌∷◌, none, if◌then◌else◌, ◌≡◌,
  refl, Result, ok, err, panic, Result-cases, inl, inr, eqb, ◌&&◌,
}
use timongo.Prelude.Int.{ℤ, pos, eqb_ℤ}
use timongo.Prelude.Dict.{Dict, lookup, insert, has, IsMap, insert-IsMap}
use timongo.Value.{Value, Doc}
use timongo.Go.{Go}
use timongo.Mql.Match.{matches}
use timongo.Mql.Update.{apply_update}
use timongo.Backend.{DeleteModel, UpdateModel, UpdateResult}
use timongo.Memory.Insert.{admit, insert_docs}
use timongo.Memory.Insert.Laws.{insert_docs-ok, insert_docs-err, insert_docs-panic}
use timongo.Memory.Delete.{delete_entries, delete_models}
use timongo.Memory.Update.{
  Instant, update_entries, matched_entry, run_update, update_models, upsert_doc, after_entries,
  after_upsert, after_update, skipped, add_matched,
}

module _ {F : Type 0} ⦃go : Go F⦄ where
  pub insert_docs-IsMap :
      (v : Value F) (ds : List (Doc F)) (coll : Dict (Doc F))
      → IsMap coll
      → IsMap (insert_docs v ds coll).0
  insert_docs-IsMap v [] coll h = unfold insert_docs in h
  insert_docs-IsMap v (d ∷ ds) coll h = elim (Result-cases (admit v d coll)) [
    | inl (key, e) ↦
        rw (insert_docs-ok v d ds coll key e)
          (insert_docs-IsMap v ds (insert key d coll) (insert-IsMap key d coll h))
    | inr (inl (x, e)) ↦ rw (insert_docs-err v d ds coll x e) h
    | inr (inr e) ↦ rw (insert_docs-panic v d ds coll e) h
  ]

  -- Taking entries out.
  pub lookup-delete_entries :
      (one : Bool) (f : Doc F) (k : String) (coll : Dict (Doc F))
      → lookup k coll ≡ none
      → lookup k (delete_entries one f coll).0 ≡ none
  unfolding delete_entries lookup
  lookup-delete_entries one f k [] h = refl
  lookup-delete_entries one f k ((j, d) ∷ coll) h =
      ground (arith, lookup-delete_entries one f k coll)

  left-IsMap :
      (test one : Bool) (k : String) (d : Doc F) (coll kept : Dict (Doc F)) (n : ℕ)
      → IsMap ((k, d) ∷ coll)
      → lookup k kept ≡ none
      → IsMap kept
      → IsMap
          (if◌then◌else◌ {A = Dict (Doc F) × ℕ} test
            (if one then (coll, 1) else (kept, suc n))
            ((k, d) ∷ kept, n)).0
  left-IsMap true true k d coll kept n h fresh hk = h.1
  left-IsMap true false k d coll kept n h fresh hk = hk
  left-IsMap false one k d coll kept n h fresh hk = (fresh, hk)

  pub delete_entries-IsMap :
      (one : Bool) (f : Doc F) (coll : Dict (Doc F))
      → IsMap coll
      → IsMap (delete_entries one f coll).0
  unfolding delete_entries
  delete_entries-IsMap one f [] h = tt
  delete_entries-IsMap one f ((k, d) ∷ coll) h =
      left-IsMap (matches d f) one k d coll (delete_entries one f coll).0
        (delete_entries one f coll).1 h (lookup-delete_entries one f k coll h.0)
        (delete_entries-IsMap one f coll h.1)

  pub delete_models-IsMap :
      (models : List (DeleteModel F)) (coll : Dict (Doc F))
      → IsMap coll
      → IsMap (delete_models models coll).0
  unfolding delete_models
  delete_models-IsMap [] coll h = h
  delete_models-IsMap (model ∷ models) coll h =
      delete_models-IsMap models _
        (delete_entries-IsMap (eqb_ℤ model.limit (pos 1)) model.filter coll h)

  -- An update rewrites entries under their keys.
  pub lookup-update_entries :
      (now : ℕ → ℤ) (model : UpdateModel F) (k : String) (coll : Dict (Doc F))
      → lookup k coll ≡ none
      → lookup k (update_entries now model coll).0 ≡ none
  unfolding update_entries lookup
  lookup-update_entries now model k [] h = refl
  lookup-update_entries now model k ((j, d) ∷ coll) h =
      ground (arith, lookup-update_entries now model k coll)

  pub has-update_entries :
      (now : ℕ → ℤ) (model : UpdateModel F) (k : String) (coll : Dict (Doc F))
      → has k coll ≡ true
      → has k (update_entries now model coll).0 ≡ true
  unfolding update_entries lookup
  has-update_entries now model k [] h = h
  has-update_entries now model k ((j, d) ∷ coll) h =
      ground (arith, has-update_entries now model k coll)

  rewritten-IsMap :
      (test : Bool) (r : Result (Doc F)) (multi : Bool) (rest : Dict (Doc F) × Result ℕ)
      (k : String) (d : Doc F) (coll : Dict (Doc F))
      → lookup k rest.0 ≡ none
      → IsMap rest.0
      → IsMap ((k, d) ∷ coll)
      → IsMap (if test then matched_entry r multi rest k d coll else skipped rest k d).0
  rewritten-IsMap false r multi rest k d coll fresh hk h = (fresh, hk)
  rewritten-IsMap true (ok next) true rest k d coll fresh hk h = (fresh, hk)
  rewritten-IsMap true (ok next) false rest k d coll fresh hk h = h
  rewritten-IsMap true (err e) multi rest k d coll fresh hk h = h
  rewritten-IsMap true panic multi rest k d coll fresh hk h = h

  update_entries-IsMap :
      (now : ℕ → ℤ) (model : UpdateModel F) (coll : Dict (Doc F))
      → IsMap coll
      → IsMap (update_entries now model coll).0
  unfolding update_entries
  update_entries-IsMap now model [] h = tt
  update_entries-IsMap now model ((k, d) ∷ coll) h =
      rewritten-IsMap (matches d model.filter) (apply_update (now (length coll)) d model.update)
        model.multi (update_entries now model coll) k d coll
        (lookup-update_entries now model k coll h.0) (update_entries-IsMap now model coll h.1) h

  upserted-IsMap :
      (stored : Result (String × Doc F)) (coll : Dict (Doc F)) (r : UpdateResult F)
      → IsMap coll
      → IsMap (after_upsert stored coll r).0
  upserted-IsMap (ok (key, d)) coll r h = insert-IsMap key d coll h
  upserted-IsMap (err e) coll r h = h
  upserted-IsMap panic coll r h = h

  counted-IsMap :
      (now : Instant) (model : UpdateModel F) (p : Dict (Doc F) × Result ℕ) (r : UpdateResult F)
      → IsMap p.0
      → IsMap (after_entries now model p r).0
  counted-IsMap now model (coll, ok n) r h = either (eqb n 0 && model.upsert)
    where
      either :
          (test : Bool)
          → IsMap
              (if test
                then after_upsert (upsert_doc now model) coll r
                else (coll, ok (add_matched n r))).0
      either true = upserted-IsMap (upsert_doc now model) coll r h
      either false = h
  counted-IsMap now model (coll, err e) r h = h
  counted-IsMap now model (coll, panic) r h = h

  -- What each round keeps that is for a model with `P`, the loop keeps.
  pub update_models-keeps :
      (P : UpdateModel F → Bool) (Inv : Dict (Doc F) → Type 0)
      → ((now : Instant) (model : UpdateModel F) (coll : Dict (Doc F)) (r : UpdateResult F)
          → P model ≡ true
          → Inv coll
          → Inv (run_update now model coll r).0)
      → (clock : ℕ → Instant) (i : ℕ) (models : List (UpdateModel F)) (coll : Dict (Doc F))
      → (r : UpdateResult F) → all P models ≡ true
      → Inv coll
      → Inv (update_models clock i models coll r).0
  unfolding update_models
  update_models-keeps P Inv keeps clock i [] coll r allowed h = h
  update_models-keeps P Inv keeps clock i (model ∷ models) coll r allowed h =
      next (run_update (clock i) model coll r)
        (λ coll' r' h'.
          update_models-keeps P Inv keeps clock (suc i) models coll' r' (ground arith) h')
        (keeps (clock i) model coll r (ground arith) h)
    where
      next :
          (p : Dict (Doc F) × Result (UpdateResult F))
          → ((coll' : Dict (Doc F)) (r' : UpdateResult F)
              → Inv coll'
              → Inv (update_models clock (suc i) models coll' r').0)
          → Inv p.0
          → Inv (after_update p (update_models clock (suc i) models)).0
      next (coll', ok r') rest h' = rest coll' r' h'
      next (coll', err e) rest h' = h'
      next (coll', panic) rest h' = h'

  pub run_update-IsMap :
      (now : Instant) (model : UpdateModel F) (coll : Dict (Doc F)) (r : UpdateResult F)
      → IsMap coll
      → IsMap (run_update now model coll r).0
  unfolding run_update
  run_update-IsMap now model coll r h =
      counted-IsMap now model (update_entries now.millis model coll) r
        (update_entries-IsMap now.millis model coll h)
