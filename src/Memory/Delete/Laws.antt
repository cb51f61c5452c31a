-- ===== src/Memory/Delete/Laws.antt =====
-- What `Delete` takes out.
use timongo.Prelude.{
  String, if◌then◌else◌, ap, ◌∙◌, Option, none, some, eq_refl, ◌+◌, true, false, not, [], ◌∷◌, ◌≡◌,
  refl, arith, length, filter, min, ℕ, eq_iff,
}
use timongo.Prelude.Dict.{Dict, lookup, lookup-insert}
use timongo.Value.{Doc}
use timongo.Go.{Go}
use timongo.Mql.Match.{matches}
use timongo.Memory.Read.{matching, count}
use timongo.Prelude.Int.{pos, eqb_ℤ}
use text.Mathlib.Text.{◌==◌}
use timongo.Backend.{DeleteModel}
use timongo.Memory.Store.{Store, namespace, or_empty, documents}
use timongo.Memory.Read.Laws.{count-eq-length}
use timongo.Memory.Delete.{delete_many, delete_from, delete_entries}

module _ {F : Type 0} ⦃go : Go F⦄ where
  abbrev pub unmatched : Doc F → Dict (Doc F) → Dict (Doc F)
  unmatched f coll = filter (λ e. not (matches e.1 f)) coll

  -- Without a limit the loop takes out every entry that matches, and counts them.
  delete_entries-all :
      (f : Doc F) (coll : Dict (Doc F))
      → delete_entries false f coll ≡ (unmatched f coll, length (matching f coll))
  unfolding delete_entries
  delete_entries-all f [] = refl
  delete_entries-all f ((k, d) ∷ coll) = ground (arith, delete_entries-all f coll)

  matching-unmatched : (f : Doc F) (coll : Dict (Doc F)) → matching f (unmatched f coll) ≡ []
  matching-unmatched f [] = refl
  matching-unmatched f ((k, d) ∷ coll) = ground (arith, matching-unmatched f coll)

  -- With a limit of 1 it takes out one entry if there is one that matches.
  delete_entries-one :
      (f : Doc F) (coll : Dict (Doc F))
      → ((delete_entries true f coll).1 ≡ min 1 (length (matching f coll)))
        × (length (delete_entries true f coll).0 + (delete_entries true f coll).1 ≡ length coll)
  unfolding delete_entries
  delete_entries-one f [] = (omega arith, omega arith)
  delete_entries-one f ((k, d) ∷ coll) = ground (arith, delete_entries-one f coll)

module _ {F : Type 0} ⦃go : Go F⦄ (db collection : String) (model : DeleteModel F)
    (s : Store F) where
  abbrev deleted : Store F × ℕ
  deleted = delete_many db collection (model ∷ []) s

  abbrev just_entries : Dict (Doc F) → Dict (Doc F) × ℕ
  just_entries coll = delete_entries (eqb_ℤ model.limit (pos 1)) model.filter coll

  abbrev ns : String
  ns = namespace db collection

  missing-ns :
      (ns' : String)
      → lookup ns s.collections ≡ none
      → documents ns' s ≡ (if ns == ns' then [] else documents ns' s)
  missing-ns ns' e = ground (arith, eq_iff ns ns')

  after_delete_from :
      (o : Option (Dict (Doc F))) (ns' : String)
      → lookup ns s.collections ≡ o
      → ((delete_from ns (model ∷ []) s o).1 ≡ (just_entries (or_empty o)).1)
        × (documents ns' (delete_from ns (model ∷ []) s o).0
            ≡ (if ns == ns' then (just_entries (or_empty o)).0 else documents ns' s))
  unfolding delete_from delete_entries
  after_delete_from none ns' e = (refl, missing-ns ns' e)
  after_delete_from (some coll) ns' e = (omega arith, rw (lookup-insert ns ns') (ground arith))

  -- `Delete` with one model is the loop on the namespace's documents.
  delete_many-lem :
      (ns' : String)
      → (deleted.1 ≡ (just_entries (documents ns s)).1)
        × (documents ns' deleted.0
            ≡ (if ns == ns' then (just_entries (documents ns s)).0 else documents ns' s))
  unfolding delete_many
  delete_many-lem ns' = after_delete_from (lookup ns s.collections) ns' refl

  -- `Delete` with one model whose limit is not 1 reports the number of documents that matched, the
  -- documents that did not match stay as they are, none that matches is left, and the other
  -- collections are as they were.
  pub delete_many-all :
      eqb_ℤ model.limit (pos 1) ≡ false
      → (deleted.1 ≡ count db collection model.filter s)
        × (documents ns deleted.0 ≡ unmatched model.filter (documents ns s))
        × (count db collection model.filter deleted.0 ≡ 0)
        × ((ns' : String)
            → documents ns' deleted.0
              ≡ (if ns == ns' then documents ns deleted.0 else documents ns' s))
  delete_many-all unlimited =
      let all_entries = delete_entries-all model.filter (documents ns s) in
      let left : documents ns deleted.0 ≡ unmatched model.filter (documents ns s) =
        rw ((delete_many-lem ns).1, eq_refl ns, unlimited) (ap (λ r. r.0) all_entries) in
      (
        (delete_many-lem ns).0
            ∙ rw (unlimited, count-eq-length db collection model.filter s)
                (ap (λ r. r.1) all_entries),
        left,
        rw
            (
              count-eq-length db collection model.filter deleted.0,
              left,
              matching-unmatched model.filter (documents ns s),
            )
            refl,
        λ ns'. rw ((delete_many-lem ns').1, (delete_many-lem ns).1, eq_refl ns) refl,
      )

  -- `Delete` with one model of limit 1 takes out one document if one matches, and none otherwise,
  -- and reports how many.
  pub delete_many-one :
      eqb_ℤ model.limit (pos 1) ≡ true
      → (deleted.1 ≡ min 1 (count db collection model.filter s))
        × (length (documents ns deleted.0) + deleted.1 ≡ length (documents ns s))
  delete_many-one limited =
      let one_entry = delete_entries-one model.filter (documents ns s) in
      (
        (delete_many-lem ns).0
            ∙ rw (limited, count-eq-length db collection model.filter s) one_entry.0,
        rw ((delete_many-lem ns).0, (delete_many-lem ns).1, eq_refl ns, limited) one_entry.1,
      )
