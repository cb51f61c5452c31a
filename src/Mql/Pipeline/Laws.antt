-- ===== src/Mql/Pipeline/Laws.antt =====
-- Pipelines compose, fuse, and agree with the options of a find.
use timongo.Prelude.{
  ℕ, ◌<◌, String, List, [], ◌∷◌, ◌++◌, ◌≡◌, refl, sym, ap, ◌∙◌, arith, Result, ok, panic, ◌>>=◌,
  >>=_assoc, >>=-ok, filter, filter-filter, take, drop, Bool, >>=-congr, take-all, drop-all,
}
use timongo.Prelude.Int.{pos, negsuc}
use timongo.Value.{Value, Doc, as_map, of_doc}
use timongo.Value.Laws.{entries-fields}
use timongo.Go.{Go}
use timongo.Mql.Match.{matches}
use timongo.Mql.Match.Order.{matches-append}
use timongo.Mql.Match.Operators.{int_value}
use timongo.Mql.Sort.{sort_docs}
use timongo.Mql.Options.{apply_find_options}
use timongo.Mql.Options.Laws.{skip_docs-eq-drop, limit_docs-eq-take, limited}
use timongo.Mql.Pipeline.{run_stage, run_stages, apply_pipeline, limit_stage, skip_stage}

module _ {F : Type 0} where
  skip_stage-eq-drop : (n : ℕ) (ds : List (Doc F)) → skip_stage (pos n) ds ≡ ok (drop n ds)
  unfolding skip_stage
  skip_stage-eq-drop n ds = ground (arith, drop-all n ds)

  limit_stage-eq-take : (n : ℕ) (ds : List (Doc F)) → limit_stage (pos n) ds ≡ ok (take n ds)
  unfolding limit_stage
  limit_stage-eq-take n ds = ground (arith, take-all n ds)

module _ {F : Type 0} ⦃go : Go F⦄ where
  -- A pipeline run behind another is the two in one.
  pub apply_pipeline-append :
      (ds : List (Doc F)) (p q : List (Value F))
      → apply_pipeline ds (p ++ q) ≡ (apply_pipeline ds p >>= λ ds'. apply_pipeline ds' q)
  unfolding apply_pipeline
  apply_pipeline-append ds [] q = refl
  apply_pipeline-append ds (stage ∷ p) q =
      >>=-congr (run_stages (as_map stage) ds) (λ ds'. apply_pipeline-append ds' p q)
      ∙ sym (
          >>=_assoc (run_stages (as_map stage) ds) (λ ds'. apply_pipeline ds' p)
            λ ds'. apply_pipeline ds' q)

  -- A stage with one operator.
  abbrev pub stage : String → Value F → Value F
  stage op raw = of_doc ((op, raw) ∷ [])

  run_stages-stage :
      (op : String) (raw : Value F) (ds : List (Doc F))
      → run_stages (as_map (stage op raw)) ds ≡ run_stage op raw ds
  unfolding run_stages as_map
  run_stages-stage op raw ds = >>=-ok (run_stage op raw ds)

  -- The first stage of a pipeline.
  pub apply_pipeline-stage :
      (op : String) (raw : Value F) (p : List (Value F)) (ds : List (Doc F))
      → apply_pipeline ds (stage op raw ∷ p) ≡ (run_stage op raw ds >>= λ ds'. apply_pipeline ds' p)
  unfolding apply_pipeline
  apply_pipeline-stage op raw p ds =
      ap (λ (m : Result (List (Doc F))). m >>= λ ds'. apply_pipeline ds' p)
        (run_stages-stage op raw ds)

  match_stage :
      (f : Doc F) (p : List (Value F)) (ds : List (Doc F))
      → apply_pipeline ds (stage "$match" (of_doc f) ∷ p)
        ≡ apply_pipeline (filter (λ d. matches d f) ds) p
  unfolding run_stage as_map
  match_stage f p ds = rw (apply_pipeline-stage "$match" (of_doc f) p ds, entries-fields f) refl

  -- Two `$match` stages in a row are one with the entries of both filters.
  pub apply_pipeline-match_match :
      (ds : List (Doc F)) (f g : Doc F) (p : List (Value F))
      → apply_pipeline ds (stage "$match" (of_doc f) ∷ stage "$match" (of_doc g) ∷ p)
        ≡ apply_pipeline ds (stage "$match" (of_doc (f ++ g)) ∷ p)
  apply_pipeline-match_match ds f g p =
      match_stage f (stage "$match" (of_doc g) ∷ p) ds
      ∙ match_stage g p (filter (λ d. matches d f) ds)
      ∙ ap (λ (kept : List (Doc F)). apply_pipeline kept p)
          (filter-filter (λ d. matches d f) (λ d. matches d g) ds
            ∙ sym (ap (λ (test : Doc F → Bool). filter test ds) (λ i d. matches-append d f g i)))
      ∙ sym (match_stage (f ++ g) p ds)

  sort_stage :
      (spec : Doc F) (p : List (Value F)) (ds : List (Doc F))
      → apply_pipeline ds (stage "$sort" (of_doc spec) ∷ p) ≡ apply_pipeline (sort_docs ds spec) p
  unfolding run_stage as_map
  sort_stage spec p ds =
      rw (apply_pipeline-stage "$sort" (of_doc spec) p ds, entries-fields spec) refl

  skip_lem :
      (raw : Value F) (s : ℕ) (p : List (Value F)) (ds : List (Doc F))
      → int_value raw ≡ pos s
      → apply_pipeline ds (stage "$skip" raw ∷ p) ≡ apply_pipeline (drop s ds) p
  unfolding run_stage
  skip_lem raw s p ds h =
      rw (apply_pipeline-stage "$skip" raw p ds, h)
        (ap (λ (m : Result (List (Doc F))). m >>= λ ds'. apply_pipeline ds' p)
          (skip_stage-eq-drop s ds))

  limit_lem :
      (raw : Value F) (l : ℕ) (ds : List (Doc F))
      → int_value raw ≡ pos l
      → apply_pipeline ds (stage "$limit" raw ∷ []) ≡ ok (take l ds)
  unfolding run_stage apply_pipeline
  limit_lem raw l ds h =
      rw (apply_pipeline-stage "$limit" raw [] ds, h, limit_stage-eq-take l ds) refl

  find_page :
      (ds : List (Doc F)) (spec : Doc F) (s l : ℕ)
      → 0 < l
      → apply_find_options ds (record { projection = []; sort = spec; skip = pos s; limit = pos l })
        ≡ take l (drop s (sort_docs ds spec))
  unfolding apply_find_options
  find_page ds spec s l h =
      rw (skip_docs-eq-drop s (sort_docs ds spec), limit_docs-eq-take l, limited h) refl

  -- A pipeline of `$match`, `$sort`, `$skip` and `$limit` gives what a find with the same filter
  -- and options gives, if the skip is not negative, the limit is positive and there is no
  -- projection.
  pub apply_pipeline-eq-find :
      (ds : List (Doc F)) (f spec : Doc F) (skip limit : Value F) (s l : ℕ)
      → int_value skip ≡ pos s
      → int_value limit ≡ pos l
      → 0 < l
      → apply_pipeline ds (
          stage "$match" (of_doc f)
          ∷ stage "$sort" (of_doc spec)
          ∷ stage "$skip" skip
          ∷ stage "$limit" limit
          ∷ [])
        ≡ ok (
            apply_find_options
              (filter (λ d. matches d f) ds)
              (record { projection = []; sort = spec; skip = pos s; limit = pos l }))
  apply_pipeline-eq-find ds f spec skip limit s l hs hl h =
      let kept = filter (λ d. matches d f) ds in
      let sorted = sort_docs kept spec in
      match_stage f _ ds
      ∙ sort_stage spec _ kept
      ∙ skip_lem skip s _ sorted hs
      ∙ limit_lem limit l (drop s sorted) hl
      ∙ sym (ap ok (find_page kept spec s l h))

  -- A `$limit` or a `$skip` by a negative number panics, whatever the documents and the stages
  -- behind it.
  pub apply_pipeline-negative :
      (ds : List (Doc F)) (raw : Value F) (n : ℕ) (p : List (Value F))
      → int_value raw ≡ negsuc n
      → (apply_pipeline ds (stage "$limit" raw ∷ p) ≡ panic)
        × (apply_pipeline ds (stage "$skip" raw ∷ p) ≡ panic)
  unfolding run_stage limit_stage skip_stage
  apply_pipeline-negative ds raw n p h = (
    rw (apply_pipeline-stage "$limit" raw p ds, h) refl,
    rw (apply_pipeline-stage "$skip" raw p ds, h) refl,
  )

  -- A pipeline that is one `$match` keeps the documents that match.
  pub apply_pipeline-match :
      (f : Doc F) (ds : List (Doc F))
      → apply_pipeline ds (stage "$match" (of_doc f) ∷ []) ≡ ok (filter (λ d. matches d f) ds)
  unfolding apply_pipeline
  apply_pipeline-match f ds = match_stage f [] ds
