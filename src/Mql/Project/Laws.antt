-- ===== src/Mql/Project/Laws.antt =====
-- Which fields a projection keeps.
use text.Mathlib.Text.{◌==◌}
use timongo.Prelude.{
  String, Bool, true, false, not, [], ◌∷◌, ◌≡◌, refl, ◌∙◌, arith, any, ◌&&◌, ◌||◌, if◌then◌else◌,
  Option, none, some, eq_iff, Bool-cases, inl, inr,
}
use timongo.Prelude.Dict.{lookup, remove, lookup-insert, lookup-remove, lookup-insert_self, or_else}
use timongo.Prelude.Int.{pos}
use timongo.Value.{Value, bool, Doc}
use timongo.Go.{Go}
use timongo.Mql.Compare.{to_float}
use timongo.Mql.Path.{value_by_path}
use timongo.Mql.Project.{
  is_zero, include_mode, exclude_fields, include_fields, include_id, write_found, project_doc,
}

module _ {F : Type 0} ⦃go : Go F⦄ where
  -- The specification has the field with a value that counts as 0, or with another value.
  abbrev pub excludes : Doc F → String → Bool
  excludes spec k = any (λ e. e.0 == k && is_zero e.1) spec

  abbrev pub includes : Doc F → String → Bool
  includes spec k = any (λ e. e.0 == k && not (is_zero e.1)) spec

  lookup-exclude_fields :
      (k : String) (spec next : Doc F)
      → lookup k (exclude_fields spec next) ≡ (if excludes spec k then none else lookup k next)
  unfolding exclude_fields
  lookup-exclude_fields k [] next = refl
  lookup-exclude_fields k ((name, v) ∷ spec) next = elim (Bool-cases (is_zero v)) [
    | inl h ↦ rw h (
        lookup-exclude_fields k spec (remove name next)
        ∙ ground (arith, lookup-remove name k next, eq_iff name k))
    | inr h ↦ rw h (lookup-exclude_fields k spec next ∙ ground arith)
  ]

  -- A projection that takes no field in leaves out the fields that it names with 0, and keeps
  -- every other field.
  pub project_doc-exclude :
      (spec d : Doc F) (k : String)
      → include_mode spec ≡ false
      → lookup k (project_doc spec d) ≡ (if excludes spec k then none else lookup k d)
  unfolding project_doc
  project_doc-exclude spec d k mode = rw mode (lookup-exclude_fields k spec d)

  lookup-write_found :
      (o : Option (Value F)) (name k : String) (next : Doc F)
      → lookup k (write_found o name next)
        ≡ (if name == k then or_else o (lookup k next) else lookup k next)
  lookup-write_found none name k next = ground arith
  lookup-write_found (some v) name k next = ground (arith, lookup-insert name k v next)

  included_step :
      (d spec next : Doc F) (name k : String) (rest : Bool)
      → (if rest
          then or_else (value_by_path d k) (lookup k (write_found (value_by_path d name) name next))
          else lookup k (write_found (value_by_path d name) name next))
        ≡ (if (name == k && true) || rest
            then or_else (value_by_path d k) (lookup k next)
            else lookup k next)
  included_step d spec next name k rest =
      ground (arith, lookup-write_found (value_by_path d name) name k next, eq_iff name k)

  without_id :
      (flag : Bool) (d next : Doc F) (k : String)
      → ("_id" == k) ≡ false
      → lookup k (if flag then write_found (lookup "_id" d) "_id" next else next) ≡ lookup k next
  without_id flag d next k h = ground (arith, lookup-write_found (lookup "_id" d) "_id" k next)

  no_rest :
      (test : Bool) (o : Option (Value F)) (k : String)
      → (if test then or_else o (lookup k []) else lookup k []) ≡ (if test then o else none)
  unfolding lookup
  no_rest test o k = ground arith

  lookup-include_fields :
      (d spec next : Doc F) (k : String)
      → lookup k (include_fields d spec next)
        ≡ (if includes spec k then or_else (value_by_path d k) (lookup k next) else lookup k next)
  unfolding include_fields
  lookup-include_fields d [] next k = refl
  lookup-include_fields d ((name, v) ∷ spec) next k = elim (Bool-cases (is_zero v)) [
    | inl h ↦ rw h (lookup-include_fields d spec next k ∙ ground arith)
    | inr h ↦ rw h (
        lookup-include_fields d spec (write_found (value_by_path d name) name next) k
        ∙ included_step d spec next name k (includes spec k))
  ]

  -- A projection that takes fields in: a field other than `_id` is in the result exactly when the
  -- specification takes it in and the path exists in the document, and has the value at that path.
  pub project_doc-include :
      (spec d : Doc F) (k : String)
      → include_mode spec ≡ true
      → ("_id" == k) ≡ false
      → lookup k (project_doc spec d) ≡ (if includes spec k then value_by_path d k else none)
  unfolding project_doc
  project_doc-include spec d k mode other = rw mode (
      without_id (include_id spec) d (include_fields d spec []) k other
      ∙ lookup-include_fields d spec [] k
      ∙ no_rest (includes spec k) (value_by_path d k) k)

  -- The document's `_id` is in the result unless the specification has `_id` with 0.
  pub project_doc-id :
      (spec d : Doc F) (v : Value F)
      → include_mode spec ≡ true
      → excludes spec "_id" ≡ false
      → lookup "_id" d ≡ some v
      → lookup "_id" (project_doc spec d) ≡ some v
  unfolding project_doc
  project_doc-id spec d v mode kept has_id =
      rw (mode, kept, has_id, lookup-insert_self "_id" v (include_fields d spec [])) refl

  -- A projection of one field by `true` leaves that field out and keeps all others, where 0
  -- equals itself as a float.
  pub project_doc-true :
      (d : Doc F) (name k : String)
      → go.same (go.of_int (pos 0)) (go.of_int (pos 0)) ≡ true
      → lookup k (project_doc ((name, bool true) ∷ []) d) ≡ (if name == k then none else lookup k d)
  unfolding include_mode to_float
  project_doc-true d name k zero_same =
      project_doc-exclude ((name, bool true) ∷ []) d k (ground arith) ∙ ground arith
