-- ===== src/Memory/Refines.antt =====
-- The store in memory keeps the contract of its interface.
use text.Mathlib.Text.{◌==◌}
use timongo.Prelude.{
  ◌&&◌, all, arith, String, ℕ, Bool, true, false, List, [], ◌∷◌, Option, none, if◌then◌else◌, ◌≡◌,
  refl, ◌∙◌, Result, ok, err, panic, ◌||◌, not, inl, length, every_true, eq_refl, eq_iff, sym, ap,
  ◌⊎◌,
}
use timongo.Prelude.Int.{ℤ, pos, eqb_ℤ}
use timongo.Prelude.Text.{◌+++◌}
use timongo.Prelude.Dict.{Dict, lookup, has, IsMap, lookup-insert}
use timongo.Value.{Doc, Value}
use timongo.Go.{Go}
use timongo.Backend.{DeleteModel, UpdateModel, UpdateResult}
use timongo.Backend.Calls.{StoreCall, perform}
use timongo.Memory.Store.{Store, namespace, documents, has_prefix, drop_collection}
use timongo.Memory.Store.Laws.{
  documents-create_collection, documents-drop_collection, drop_database-lem,
}
use timongo.Memory.Insert.{insert_many, admit, validator_of}
use timongo.Memory.Insert.Laws.{
  is_ok, StopsAt, documents-insert_many, insert_many-front, insert_many-ok,
}
use timongo.Memory.Delete.{delete_many, delete_entries, delete_models}
use timongo.Memory.Update.{
  leaves_arrays, Instant, update_many, update_entries, update_models, run_update, after_entries,
  after_upsert, upsert_doc, no_updates,
}
use timongo.Memory.Keys.Documents.{
  documents-delete_many, documents-update_many, documents-create_indexes,
}
use timongo.Memory.Served.{MemoryState, memory_store}
use timongo.Memory.Maps.{delete_entries-IsMap, has-update_entries, update_models-keeps}
use timongo.Memory.Maps.Calls.{AllMaps}
use timongo.Memory.Effects.{
  Documents, found_by, is_there, may_store, Stopped, takes, Deletes, Updates, Within, Effect,
}

module _ {F : Type 0} ⦃go : Go F⦄ where
  -- The documents that a store holds.
  abbrev pub view : Store F → Documents F
  view s ns key = lookup key (documents ns s)

  delete_entries-Deletes :
      (one : Bool) (f : Doc F) (coll : Dict (Doc F)) (key : String)
      → IsMap coll
      → (lookup key (delete_entries one f coll).0 ≡ lookup key coll)
        ⊎ ((lookup key (delete_entries one f coll).0 ≡ none)
            × (found_by f (lookup key coll) ≡ true))
  unfolding delete_entries lookup
  delete_entries-Deletes one f [] key h = inl refl
  delete_entries-Deletes one f ((j, d) ∷ coll) key h =
      ground (arith, delete_entries-Deletes one f coll key h.1, h.0, eq_iff j key)

  -- A delete with no limit takes out every document that it matches.
  delete_entries-takes :
      (f : Doc F) (coll : Dict (Doc F)) (key : String)
      → IsMap coll
      → found_by f (lookup key coll) ≡ true
      → lookup key (delete_entries false f coll).0 ≡ none
  unfolding delete_entries lookup
  delete_entries-takes f [] key h found = refl
  delete_entries-takes f ((j, d) ∷ coll) key h found = ground (
    arith,
    delete_entries-takes f coll key h.1,
    delete_entries-Deletes false f coll key h.1,
    h.0,
    eq_iff j key,
  )

  after_two :
      (model : DeleteModel F) (models : List (DeleteModel F)) (before mid after : Option (Doc F))
      → (mid ≡ before) ⊎ ((mid ≡ none) × (found_by model.filter before ≡ true))
      → (takes before model ≡ true → mid ≡ none)
      → Deletes models mid after
      → Deletes (model ∷ models) before after
  after_two model models before mid after h gone h' = ground arith

  delete_models-Deletes :
      (models : List (DeleteModel F)) (coll : Dict (Doc F)) (key : String)
      → IsMap coll
      → Deletes models (lookup key coll) (lookup key (delete_models models coll).0)
  unfolding delete_models
  delete_models-Deletes [] coll key h = (inl refl, λ e. ground arith)
  delete_models-Deletes (model ∷ models) coll key h =
      let one = eqb_ℤ model.limit (pos 1) in
      let coll' = (delete_entries one model.filter coll).0 in
      after_two model models (lookup key coll) (lookup key coll') _
        (delete_entries-Deletes one model.filter coll key h)
        (delete_entries-limit one model.filter coll key h)
        (delete_models-Deletes models coll' key (delete_entries-IsMap one model.filter coll h))
    where
      delete_entries-limit :
          (one : Bool) (f : Doc F) (coll : Dict (Doc F)) (key : String)
          → IsMap coll
          → (not one && found_by f (lookup key coll)) ≡ true
          → lookup key (delete_entries one f coll).0 ≡ none
      delete_entries-limit true f coll key h e = ground arith
      delete_entries-limit false f coll key h e = delete_entries-takes f coll key h e

  update_entries-unmatched :
      (now : ℕ → ℤ) (model : UpdateModel F) (coll : Dict (Doc F)) (key : String)
      → found_by model.filter (lookup key coll) ≡ false
      → lookup key (update_entries now model coll).0 ≡ lookup key coll
  unfolding update_entries lookup
  update_entries-unmatched now model [] key h = refl
  update_entries-unmatched now model ((j, d) ∷ coll) key h =
      ground (arith, update_entries-unmatched now model coll key)

  counted-unmatched :
      (now : Instant) (model : UpdateModel F) (p : Dict (Doc F) × Result ℕ) (r : UpdateResult F)
      → model.upsert ≡ false
      → (after_entries now model p r).0 ≡ p.0
  counted-unmatched now model p r h = ground arith

  run_update-unmatched :
      (now : Instant) (model : UpdateModel F) (coll : Dict (Doc F)) (r : UpdateResult F)
      (key : String)
      → (model.upsert || found_by model.filter (lookup key coll)) ≡ false
      → lookup key (run_update now model coll r).0 ≡ lookup key coll
  unfolding run_update
  run_update-unmatched now model coll r key h =
      ap (lookup key)
        (counted-unmatched now model (update_entries now.millis model coll) r (ground arith))
      ∙ update_entries-unmatched now.millis model coll key (ground arith)

  has-upserted :
      (stored : Result (String × Doc F)) (coll : Dict (Doc F)) (r : UpdateResult F) (key : String)
      → has key coll ≡ true
      → has key (after_upsert stored coll r).0 ≡ true
  has-upserted (ok (k, d)) coll r key h = ground (arith, lookup-insert k key d coll)
  has-upserted (err e) coll r key h = h
  has-upserted panic coll r key h = h

  has-counted :
      (now : Instant) (model : UpdateModel F) (p : Dict (Doc F) × Result ℕ) (r : UpdateResult F)
      (key : String)
      → has key p.0 ≡ true
      → has key (after_entries now model p r).0 ≡ true
  has-counted now model (coll, n) r key h =
      ground (arith, has-upserted (upsert_doc now model) coll r key h)

  run_update-keeps_keys :
      (now : Instant) (model : UpdateModel F) (coll : Dict (Doc F)) (r : UpdateResult F)
      (key : String)
      → has key coll ≡ true
      → has key (run_update now model coll r).0 ≡ true
  unfolding run_update
  run_update-keeps_keys now model coll r key h =
      has-counted now model (update_entries now.millis model coll) r key
        (has-update_entries now.millis model key coll h)

  all-left :
      (p q : UpdateModel F → Bool) (models : List (UpdateModel F))
      → all (λ m. p m && q m) models ≡ true
      → all p models ≡ true
  all-left p q [] h = refl
  all-left p q (m ∷ models) h = ground (arith, all-left p q models)

  update_models-Updates :
      (clock : ℕ → Instant) (models : List (UpdateModel F)) (coll : Dict (Doc F))
      (r : UpdateResult F) (key : String)
      → Updates models (lookup key coll) (lookup key (update_models clock 0 models coll r).0)
  update_models-Updates clock models coll r key = (
    update_models-keeps (λ _. true) (λ c. is_there (lookup key c) ≡ true)
        (λ now model c r' _ h. run_update-keeps_keys now model c r' key h) clock 0 models coll r
        (every_true models),
    λ quiet.
        update_models-keeps
          (λ (m : UpdateModel F). not (m.upsert || found_by m.filter (lookup key coll)))
          (λ c. lookup key c ≡ lookup key coll)
          (λ now model c r' q h. run_update-unmatched now model c r' key (rw h (ground arith)) ∙ h)
          clock 0 models coll r (all-left _ leaves_arrays models quiet) refl,
  )

  -- A collection that becomes `coll`, beside others that stay.
  within :
      (ns : String) (C : String → Option (Doc F) → Option (Doc F) → Type 0) (coll : Dict (Doc F))
      (s s' : Store F)
      → ((ns' : String) → documents ns' s' ≡ (if ns == ns' then coll else documents ns' s))
      → ((key : String) → C key (lookup key (documents ns s)) (lookup key coll))
      → Within ns C (view s) (view s')
  within ns C coll s s' e change =
      (λ key. rw (e ns, eq_refl ns) (change key), λ ns' key other. rw (e ns', other) refl)

  lookup-dropped :
      (test : Bool) (coll : Dict (Doc F)) (key : String)
      → lookup key (if test then [] else coll) ≡ (if test then none else lookup key coll)
  unfolding lookup
  lookup-dropped test coll key = ground arith

  admit-may_store :
      (v : Value F) (d : Doc F) (coll : Dict (Doc F))
      → is_ok (admit v d coll) ≡ false
      → may_store v (λ key. lookup key coll) d ≡ false
  unfolding admit
  admit-may_store v d coll h = ground arith

  stops-Stopped :
      (v : Value F) (rest : List (Doc F)) (coll : Dict (Doc F)) (r : Result (Unit {0}))
      → StopsAt v rest coll r
      → Stopped v (λ key. lookup key coll) rest
  stops-Stopped v [] coll r h = tt
  stops-Stopped v (d ∷ rest) coll r h = admit-may_store v d coll h.0

  insert_many-Effect :
      (db collection : String) (ds : List (Doc F)) (s : Store F)
      → Effect
          (λ ns. validator_of ns s)
          (StoreCall.insert_many db collection ds)
          (view s)
          (view (insert_many db collection ds s).0)
  insert_many-Effect db collection ds s =
      let ns = namespace db collection in
      let (front, rest, split, stored, same, _, stops, _) = insert_many-front db collection ds s in
      (
        front,
        rest,
        split,
        (
          λ key.
              ap (lookup key) (sym same)
              ∙ (insert_many-ok db collection front s (length front) stored).2 key,
          λ ns' key other.
              ap (lookup key) (documents-insert_many db collection ds s ns' ∙ rw other refl),
        ),
        stops-Stopped (validator_of ns s) rest _ _ stops,
      )

  -- Each call of the store in memory has the effect that the contract gives it, in a
  -- store where no key of a collection stands twice.
  pub perform-Effect :
      (clock : ℕ → ℕ → Instant) (call : StoreCall F) (s : MemoryState F)
      → AllMaps s.0
      → Effect
          (λ ns. validator_of ns s.0)
          call
          (view s.0)
          (view (perform (memory_store clock) call s).0)
  perform-Effect clock (StoreCall.create_collection db coll v) (s, i) h =
      λ ns key. rw (documents-create_collection db coll ns v s) refl
  perform-Effect clock (StoreCall.drop_collection db coll) (s, i) h =
      within (namespace db coll) (λ key before after. after ≡ none) [] s (drop_collection db coll s)
        (λ ns'. documents-drop_collection db coll ns' s) λ key. unfold lookup in refl
  perform-Effect clock (StoreCall.insert_many db coll ds) (s, i) h = insert_many-Effect db coll ds s
  perform-Effect clock (StoreCall.update_many db coll models) (s, i) h =
      within (namespace db coll) (λ key. Updates models) _ s
        (update_many (clock i) db coll models s).0
        (λ ns'. documents-update_many db coll s (clock i) models ns')
        λ key.
          update_models-Updates (clock i) models (documents (namespace db coll) s) no_updates key
  perform-Effect clock (StoreCall.delete_many db coll models) (s, i) h =
      within (namespace db coll) (λ key. Deletes models) _ s (delete_many db coll models s).0
        (λ ns'. documents-delete_many db coll s models ns')
        λ key.
          delete_models-Deletes models (documents (namespace db coll) s) key (h (namespace db coll))
  perform-Effect clock (StoreCall.create_indexes db coll models) (s, i) h =
      λ ns key. rw (documents-create_indexes db coll s models ns) refl
  perform-Effect clock (StoreCall.drop_database db) (s, i) h = λ ns key.
      rw (drop_database-lem db ns s)
        (lookup-dropped (has_prefix (db +++ ".") ns) (documents ns s) key)
  perform-Effect clock (StoreCall.list_collections db wanted) s h = λ ns key. refl
  perform-Effect clock (StoreCall.find db coll req) s h = λ ns key. refl
  perform-Effect clock (StoreCall.count db coll query) s h = λ ns key. refl
  perform-Effect clock (StoreCall.distinct db coll k query) s h = λ ns key. refl
  perform-Effect clock (StoreCall.aggregate db coll pipeline) s h = λ ns key. refl
  perform-Effect clock (StoreCall.list_indexes db coll) s h = λ ns key. refl
