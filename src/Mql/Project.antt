-- ===== src/Mql/Project.antt =====
-- internal/mql/mql.go: `project`, `addFields`, `unsetFields` and `unwind`.
pub mod Laws
use text.Mathlib.Text.{◌==◌}
use timongo.Prelude.{
  String, Bool, true, false, not, List, [], ◌∷◌, Option, none, some, any, map, flat_map,
  if◌then◌else◌, ◌&&◌, is_empty,
}
use timongo.Prelude.Int.{pos}
use timongo.Prelude.Text.{trim_dollar}
use timongo.Prelude.Dict.{lookup, insert, remove}
use timongo.Value.{Value, null, str, doc, arr, slice, Doc, entries, items, as_array}
use timongo.Go.{Go}
use timongo.Mql.Compare.{to_float, sprint}
use timongo.Mql.Path.{value_by_path, or_nil}
use timongo.Mql.Expr.{eval_expr}

module _ {F : Type 0} ⦃go : Go F⦄ where
  -- `ToFloat(v) == 0`
  abbrev pub is_zero : Value F → Bool
  is_zero v = go.same (to_float v) (go.of_int (pos 0))

  unfoldable pub include_mode : Doc F → Bool
  include_mode spec = any (λ e. not (e.0 == "_id") && not (is_zero e.1)) spec

  -- The loop of the mode that leaves fields out.
  unfoldable pub exclude_fields : Doc F → Doc F → Doc F
  exclude_fields [] next = next
  exclude_fields ((name, include) ∷ spec) next =
      exclude_fields spec (if is_zero include then remove name next else next)

  abbrev write_found : Option (Value F) → String → Doc F → Doc F
  write_found none name next = next
  write_found (some v) name next = insert name v next

  -- The loop of the mode that takes fields in, without the flag `includeID`.
  unfoldable pub include_fields : Doc F → Doc F → Doc F → Doc F
  include_fields d [] next = next
  include_fields d ((name, include) ∷ spec) next =
      include_fields d spec
        (if is_zero include then next else write_found (value_by_path d name) name next)

  -- The flag `includeID` after the loop.
  unfoldable pub include_id : Doc F → Bool
  include_id spec = not (any (λ e. e.0 == "_id" && is_zero e.1) spec)

  unfoldable pub project_doc : Doc F → Doc F → Doc F
  unfolding include_mode exclude_fields include_fields include_id
  project_doc spec d =
      if not (include_mode spec)
      then exclude_fields spec d
      else (let next = include_fields d spec [] in
          if include_id spec then write_found (lookup "_id" d) "_id" next else next)

  unfoldable pub project : List (Doc F) → Doc F → List (Doc F)
  unfolding project_doc
  project ds spec = map (project_doc spec) ds

  add_fields_from : Doc F → Doc F → Doc F → Doc F
  add_fields_from d [] next = next
  add_fields_from d ((name, expr) ∷ spec) next =
      add_fields_from d spec (insert name (eval_expr d expr) next)

  unfoldable pub add_fields : List (Doc F) → Doc F → List (Doc F)
  unfolding add_fields_from
  add_fields ds spec = map (λ d. add_fields_from d spec d) ds

  field_names : Value F → List String
  field_names (str s) = s ∷ []
  field_names (arr a) = map sprint (items a)
  field_names (slice a) = map sprint (items a)
  field_names _ = []

  remove_names : List String → Doc F → Doc F
  remove_names [] d = d
  remove_names (name ∷ names) d = remove_names names (remove name d)

  unfoldable pub unset_fields : List (Doc F) → Value F → List (Doc F)
  unfolding field_names remove_names
  unset_fields ds raw = map (remove_names (field_names raw)) ds

  unwind_path : Value F → String
  unwind_path (str s) = trim_dollar s
  unwind_path (doc m) = trim_dollar (sprint (or_nil (lookup "path" (entries m))))
  unwind_path _ = ""

  unwind_doc : String → Doc F → List (Doc F)
  unwind_doc path d = map (λ item. insert path item d) (as_array (or_nil (lookup path d)))

  unfoldable pub unwind : List (Doc F) → Value F → List (Doc F)
  unfolding unwind_path unwind_doc
  unwind ds raw =
      let path = unwind_path raw in if path == "" then ds else flat_map (unwind_doc path) ds
