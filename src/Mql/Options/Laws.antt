-- ===== src/Mql/Options/Laws.antt =====
-- `ApplyFindOptions` returns one page of the sorted documents.
use timongo.Prelude.{
  ℕ, zero, suc, ◌+◌, ◌-◌, ◌<◌, min, List, [], ◌∷◌, ◌++◌, ◌≡◌, refl, sym, ap, ◌∙◌, arith, length,
  take, drop, is_empty, eqb, if◌then◌else◌, map-append, length-map, length-take, length-drop,
  drop-all, take-all, drop-drop, take-append-drop, false, length-perm,
}
use timongo.Prelude.Int.{pos}
use timongo.Value.{Doc}
use timongo.Go.{Go}
use timongo.Mql.Sort.{sort_docs}
use timongo.Mql.Sort.Laws.{sort_docs-perm}
use timongo.Mql.Project.{project, project_doc}
use timongo.Mql.Options.{FindOptions, skip_docs, limit_docs, apply_find_options}

pub limited : {l : ℕ} → 0 < l → eqb l 0 ≡ false
limited h = ground arith

module _ {F : Type 0} where
  pub skip_docs-eq-drop : (n : ℕ) (ds : List (Doc F)) → skip_docs (pos n) ds ≡ drop n ds
  unfolding skip_docs
  skip_docs-eq-drop zero ds = refl
  skip_docs-eq-drop (suc n) ds = ground (arith, drop-all (suc n) ds)

  -- A limit of 0 is no limit.
  pub limit_docs-eq-take :
      (n : ℕ) (ds : List (Doc F)) → limit_docs (pos n) ds ≡ (if eqb n 0 then ds else take n ds)
  unfolding limit_docs
  limit_docs-eq-take zero ds = refl
  limit_docs-eq-take (suc n) ds = ground (arith, take-all (suc n) ds)

module _ {F : Type 0} ⦃go : Go F⦄ where
  -- The projection as a function on one page.
  abbrev projected : Doc F → List (Doc F) → List (Doc F)
  projected spec page = if is_empty spec then page else project page spec

  projected-append :
      (spec : Doc F) (xs ys : List (Doc F))
      → projected spec (xs ++ ys) ≡ projected spec xs ++ projected spec ys
  unfolding project
  projected-append [] xs ys = refl
  projected-append (e ∷ spec) xs ys = map-append (project_doc (e ∷ spec)) xs ys

  length-projected : (spec : Doc F) (xs : List (Doc F)) → length (projected spec xs) ≡ length xs
  unfolding project
  length-projected [] xs = refl
  length-projected (e ∷ spec) xs = length-map (project_doc (e ∷ spec)) xs

  abbrev pub paged : FindOptions F → ℕ → ℕ → FindOptions F
  paged opts s l = record opts { skip = pos s; limit = pos l }

  apply_find_options-lem :
      (input : List (Doc F)) (opts : FindOptions F) (s l : ℕ)
      → apply_find_options input (paged opts s l)
        ≡ projected opts.projection (
            if eqb l 0
            then drop s (sort_docs input opts.sort)
            else take l (drop s (sort_docs input opts.sort)))
  unfolding apply_find_options
  apply_find_options-lem input opts s l = rw (limit_docs-eq-take, skip_docs-eq-drop) refl

  -- The number of documents returned, for a skip and a limit that are not negative: those behind
  -- the skipped ones, at most the limit if that is not 0.
  pub length-apply_find_options :
      (input : List (Doc F)) (opts : FindOptions F) (s l : ℕ)
      → length (apply_find_options input (paged opts s l))
        ≡ (if eqb l 0 then length input - s else min l (length input - s))
  length-apply_find_options input opts s l =
      let sorted = sort_docs input opts.sort in
      rw
        (
          apply_find_options-lem input opts s l,
          length-projected opts.projection
              (if eqb l 0 then drop s sorted else take l (drop s sorted)),
          ← length-perm (sort_docs-perm input opts.sort),
        )
        (ground (arith, length-take l (drop s sorted), length-drop s sorted))

  -- A page with a positive limit, and then everything behind it, are everything from the page's
  -- start on, in one order, if the skip is not negative.
  pub apply_find_options-pages :
      (input : List (Doc F)) (opts : FindOptions F) (s l : ℕ)
      → 0 < l
      → apply_find_options input (paged opts s l) ++ apply_find_options input (paged opts (s + l) 0)
        ≡ apply_find_options input (paged opts s 0)
  apply_find_options-pages input opts s l h =
      let sorted = sort_docs input opts.sort in
      rw
        (
          apply_find_options-lem input opts s l,
          apply_find_options-lem input opts (s + l) 0,
          apply_find_options-lem input opts s 0,
          limited h,
        )
        (sym (projected-append opts.projection (take l (drop s sorted)) (drop (s + l) sorted))
          ∙ ap (projected opts.projection)
              (rw (← drop-drop s l sorted) (take-append-drop l (drop s sorted))))
