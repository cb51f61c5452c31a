-- ===== src/Value/Laws.antt =====
-- The two forms of a document, and of an array, determine one another.
use timongo.Prelude.{◌≡◌, refl, ap, List, [], ◌∷◌}
use timongo.Value.{
  Doc, Fields, end, field, Values, nil, cons, Value, entries, fields, items, values,
}

module _ {F : Type 0} where
  pub entries-fields : (d : Doc F) → entries (fields d) ≡ d
  entries-fields [] = refl
  entries-fields ((k, v) ∷ d) = ap (◌∷◌ (k, v)) (entries-fields d)

  pub fields-entries : (fs : Fields F) → fields (entries fs) ≡ fs
  fields-entries end = refl
  fields-entries (field k v fs) = ap (field k v) (fields-entries fs)

  pub items-values : (xs : List (Value F)) → items (values xs) ≡ xs
  items-values [] = refl
  items-values (x ∷ xs) = ap (◌∷◌ x) (items-values xs)

  pub values-items : (xs : Values F) → values (items xs) ≡ xs
  values-items nil = refl
  values-items (cons x xs) = ap (cons x) (values-items xs)
