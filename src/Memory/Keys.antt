-- ===== src/Memory/Keys.antt =====
-- Every document stands under the key of its `_id`, and no key stands twice: the operations that
-- insert and delete.
pub mod Update
pub mod Documents
use timongo.Memory.Update.{
  no_updates, after_update, update_many, Instant, update_entries, upsert_doc, run_update,
  update_models, after_entries, after_upsert, matched_entry,
}
use timongo.Memory.Delete.{delete_many, delete_from, delete_entries, delete_models}
use timongo.Memory.Store.{Store, namespace, documents, or_empty}
use timongo.Memory.Store.Laws.{documents-open_collection}
use timongo.Memory.Insert.{insert_docs, admit}
use timongo.Memory.Insert.Laws.{admit-eq-ok, insert_docs-ok, insert_docs-err, insert_docs-panic}
use timongo.Memory.Indexes.{create_indexes}
use timongo.Backend.{IndexModel, DeleteModel, UpdateModel, UpdateResult}
use timongo.Prelude.{
  Option, some, none, suc, ok-injective, subst, eqb, ◌&&◌, ℕ, String, Bool, true, false, List, [],
  ◌∷◌, ◌≡◌, refl, ap, ◌∙◌, arith, if◌then◌else◌, Result, ok, err, panic, >>=-eq-ok, Result-cases,
  Bool-cases, inl, inr, eq_iff,
}
use timongo.Prelude.Dict.{lookup-insert, Dict, lookup, insert, has, lookup-insert_ne}
use text.Mathlib.Text.{◌==◌}
use timongo.Value.{str, Value, Doc}
use timongo.Prelude.Text.{◌+++◌, print_ℤ}
use timongo.Prelude.Int.{ℤ, pos, eqb_ℤ}
use timongo.Go.{Go}
use timongo.Bsonutil.{key_of, document_id_key}
use timongo.Mql.Match.{matches}
use timongo.Mql.Update.{apply_update, operator_style}
use timongo.Mql.Update.Frame.{mentions, apply_update-frame}

ne_flip : (j k : String) → (j == k) ≡ false → (k == j) ≡ false
ne_flip j k h = ground (arith, eq_iff j k, eq_iff k j)

module _ {F : Type 0} ⦃go : Go F⦄ where
  -- Each document stands under its own key, and no key stands twice.
  abbrev pub IsKeyed : Dict (Doc F) → Type 0
  IsKeyed [] = Unit {0}
  IsKeyed ((k, d) ∷ coll) = (document_id_key d ≡ ok k) × (lookup k coll ≡ none) × IsKeyed coll

  abbrev pub AllKeyed : Store F → Type 0
  AllKeyed s = (ns : String) → IsKeyed (documents ns s)

  pub insert-IsKeyed :
      (k : String) (d : Doc F) (coll : Dict (Doc F))
      → document_id_key d ≡ ok k
      → IsKeyed coll
      → IsKeyed (insert k d coll)
  unfolding insert lookup
  insert-IsKeyed k d [] found h = (found, refl, tt)
  insert-IsKeyed k d ((j, e) ∷ coll) found h = elim (Bool-cases (j == k)) [
    | inl same ↦ rw same (found, rw (← (eq_iff j k).0 same) h.1, h.2)
    | inr other ↦ rw other (
      h.0,
      lookup-insert_ne k j d coll (ne_flip j k other) ∙ h.1,
      insert-IsKeyed k d coll found h.2,
    )
  ]

  pub insert_docs-IsKeyed :
      (v : Value F) (ds : List (Doc F)) (coll : Dict (Doc F))
      → IsKeyed coll
      → IsKeyed (insert_docs v ds coll).0
  insert_docs-IsKeyed v [] coll h = unfold insert_docs in h
  insert_docs-IsKeyed v (d ∷ ds) coll h = elim (Result-cases (admit v d coll)) [
    | inl (key, e) ↦ rw (insert_docs-ok v d ds coll key e) (
        insert_docs-IsKeyed v ds (insert key d coll)
          (insert-IsKeyed key d coll (admit-eq-ok v d coll key e).0 h))
    | inr (inl (x, e)) ↦ rw (insert_docs-err v d ds coll x e) h
    | inr (inr e) ↦ rw (insert_docs-panic v d ds coll e) h
  ]

  -- Taking entries out.
  lookup-delete_entries :
      (one : Bool) (f : Doc F) (k : String) (coll : Dict (Doc F))
      → lookup k coll ≡ none
      → lookup k (delete_entries one f coll).0 ≡ none
  unfolding delete_entries lookup
  lookup-delete_entries one f k [] h = refl
  lookup-delete_entries one f k ((j, d) ∷ coll) h =
      ground (arith, lookup-delete_entries one f k coll)

  kept_or_not :
      (test one : Bool) (k : String) (d : Doc F) (coll kept : Dict (Doc F)) (n : ℕ)
      → IsKeyed ((k, d) ∷ coll)
      → lookup k kept ≡ none
      → IsKeyed kept
      → IsKeyed
          (if◌then◌else◌ {A = Dict (Doc F) × ℕ} test
            (if one then (coll, 1) else (kept, suc n))
            ((k, d) ∷ kept, n)).0
  kept_or_not true true k d coll kept n h fresh hk = h.2
  kept_or_not true false k d coll kept n h fresh hk = hk
  kept_or_not false one k d coll kept n h fresh hk = (h.0, fresh, hk)

  delete_entries-IsKeyed :
      (one : Bool) (f : Doc F) (coll : Dict (Doc F))
      → IsKeyed coll
      → IsKeyed (delete_entries one f coll).0
  unfolding delete_entries
  delete_entries-IsKeyed one f [] h = tt
  delete_entries-IsKeyed one f ((k, d) ∷ coll) h =
      kept_or_not (matches d f) one k d coll (delete_entries one f coll).0
        (delete_entries one f coll).1 h (lookup-delete_entries one f k coll h.1)
        (delete_entries-IsKeyed one f coll h.2)

  pub delete_models-IsKeyed :
      (models : List (DeleteModel F)) (coll : Dict (Doc F))
      → IsKeyed coll
      → IsKeyed (delete_models models coll).0
  unfolding delete_models
  delete_models-IsKeyed [] coll h = h
  delete_models-IsKeyed (model ∷ models) coll h =
      delete_models-IsKeyed models (delete_entries (eqb_ℤ model.limit (pos 1)) model.filter coll).0
        (delete_entries-IsKeyed (eqb_ℤ model.limit (pos 1)) model.filter coll h)

  pub delete_models-empty : (models : List (DeleteModel F)) → (delete_models models []).0 ≡ []
  unfolding delete_models
  delete_models-empty [] = refl
  delete_models-empty (model ∷ models) = delete_models-empty models
