-- ===== src/Mql/Options.antt =====
-- internal/mql/mql.go: `FindOptions` and `ApplyFindOptions`.
pub mod Laws
use timongo.Prelude.{List, [], if◌then◌else◌, ltb, leb, length, take, drop, is_empty}
use timongo.Prelude.Int.{ℤ, pos, negsuc}
use timongo.Value.{Doc}
use timongo.Go.{Go}
use timongo.Mql.Sort.{sort_docs}
use timongo.Mql.Project.{project}

pub record FindOptions (F : Type 0) : Type 0 where
  pub projection : Doc F
  pub sort : Doc F
  pub skip : ℤ
  pub limit : ℤ

module _ {F : Type 0} where
  unfoldable pub skip_docs : ℤ → List (Doc F) → List (Doc F)
  skip_docs (pos n) ds = if ltb 0 n then (if leb (length ds) n then [] else drop n ds) else ds
  skip_docs (negsuc n) ds = ds

  unfoldable pub limit_docs : ℤ → List (Doc F) → List (Doc F)
  limit_docs (pos n) ds = if ltb 0 n then (if ltb n (length ds) then take n ds else ds) else ds
  limit_docs (negsuc n) ds = ds

module _ {F : Type 0} ⦃go : Go F⦄ where
  unfoldable pub apply_find_options : List (Doc F) → FindOptions F → List (Doc F)
  unfolding skip_docs limit_docs
  apply_find_options input opts =
      let sorted = sort_docs input opts.sort in
      let page = limit_docs opts.limit (skip_docs opts.skip sorted) in
      if is_empty opts.projection then page else project page opts.projection
