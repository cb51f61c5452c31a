-- ===== src/Tests/Queries.antt =====
-- The theorems of internal/mql/mql.go about filters, sorts, pages, projections, pipelines and
-- schemas, at concrete inputs.
use mathlib.Core.List.{Permᴰ}
use timongo.Prelude.{
  any, not, ◌-◌, String, true, List, [], ◌∷◌, ◌++◌, Option, some, if◌then◌else◌, arith, ◌≡◌, refl,
  ◌&&◌, all, length, eqb, min, ok, filter, ◌↔◌,
}
use timongo.Prelude.Int.{ℤ, pos}
use timongo.Prelude.Dict.{lookup}
use timongo.Value.{Value, str, Doc, of_doc, of_list, as_array, as_map}
use timongo.Mql.Compare.{to_float}
use timongo.Mql.Match.{matches}
use timongo.Mql.Match.Logic.{only, filters, matches-and-or-nor}
use timongo.Mql.Match.Order.{matches-perm}
use timongo.Mql.Sort.{doc_before, is_negative, sort_docs}
use timongo.Mql.Sort.Laws.{IsSorted, sort_docs-IsSorted}
use timongo.Mql.Options.{FindOptions, apply_find_options}
use timongo.Mql.Options.Laws.{paged, length-apply_find_options}
use timongo.Mql.Pipeline.{apply_pipeline}
use timongo.Mql.Pipeline.Laws.{stage, apply_pipeline-eq-find}
use timongo.Mql.Schema.{validate_json_schema}
use timongo.Mql.Schema.Laws.{is_present, fits, schema_of, validate_json_schema_iff}
use timongo.Mql.Update.Operators.{get}
use timongo.Tests.{num, whole, whole-IsOrdered, item, on_n, three}

-- Filters.
matches-perm_example :
    matches (item "a" 3) (on_n "$gt" 2 ++ on_n "$lt" 5)
    ≡ matches (item "a" 3) (on_n "$lt" 5 ++ on_n "$gt" 2)
matches-perm_example = matches-perm (item "a" 3) (Permᴰ.swap refl refl)

abbrev two_filters : List (Doc ℤ)
two_filters = on_n "$gt" 2 ∷ on_n "$lt" 1 ∷ []

matches-and-or-nor_example :
    (matches (item "a" 3) (only "$and" (filters two_filters))
      ≡ all (matches (item "a" 3)) two_filters)
    × (matches (item "a" 3) (only "$or" (filters two_filters))
        ≡ any (matches (item "a" 3)) two_filters)
    × (matches (item "a" 3) (only "$nor" (filters two_filters))
        ≡ all (λ f. not (matches (item "a" 3) f)) two_filters)
matches-and-or-nor_example = matches-and-or-nor (item "a" 3) two_filters

abbrev word : String → Value ℤ
word s = str s

abbrev got_three : Option (Value ℤ)
got_three = some (num 3)

-- Sorts and pages.
sort_docs-IsSorted_example :
    IsSorted (doc_before "n" (is_negative (num 1))) (sort_docs three (("n", num 1) ∷ []))
    × Permᴰ (sort_docs three (("n", num 1) ∷ [])) three
sort_docs-IsSorted_example = sort_docs-IsSorted whole-IsOrdered three "n" (num 1) [] refl

abbrev by_n : FindOptions ℤ
by_n = record { projection = []; sort = ("n", num 1) ∷ []; skip = pos 0; limit = pos 0 }

length-apply_find_options_example :
    length (apply_find_options three (paged by_n 1 1))
    ≡ (if eqb 1 0 then length three - 1 else min 1 (length three - 1))
length-apply_find_options_example = length-apply_find_options three by_n 1 1

-- Pipelines.
abbrev match_stage : List (Value ℤ)
match_stage = stage "$match" (of_doc (on_n "$gt" 1)) ∷ []

abbrev sort_stage : List (Value ℤ)
sort_stage = stage "$sort" (of_doc (("n", num 1) ∷ [])) ∷ []

apply_pipeline-eq-find_example :
    apply_pipeline three (
      stage "$match" (of_doc (on_n "$gt" 0))
      ∷ stage "$sort" (of_doc by_n.sort)
      ∷ stage "$skip" (num 1)
      ∷ stage "$limit" (num 1)
      ∷ [])
    ≡ ok (
        apply_find_options
          (filter (λ d. matches d (on_n "$gt" 0)) three)
          (record { projection = []; sort = by_n.sort; skip = pos 1; limit = pos 1 }))
unfolding to_float
apply_pipeline-eq-find_example =
    apply_pipeline-eq-find three (on_n "$gt" 0) by_n.sort (num 1) (num 1) 1 1 refl refl
      (omega arith)

-- Projections.
abbrev without_n : Doc ℤ
without_n = ("n", num 0) ∷ []

abbrev with_n : Doc ℤ
with_n = ("n", num 1) ∷ []

-- Schemas.
abbrev validator : Value ℤ
validator = of_doc (
    (
      "$jsonSchema",
      of_doc (
          ("required", of_list (str "n" ∷ []))
          ∷ ("properties", of_doc (("n", of_doc (("bsonType", str "int") ∷ [])) ∷ []))
          ∷ []),
    )
    ∷ [])

validate_json_schema_iff_example : (validate_json_schema validator (item "a" 3) ≡ ok tt) ↔ (
    (all (is_present (item "a" 3)) (as_array (get "required" (schema_of validator)))
      && all (fits (item "a" 3)) (as_map (get "properties" (schema_of validator))))
    ≡ true)
unfolding lookup
validate_json_schema_iff_example = validate_json_schema_iff validator (item "a" 3) refl
