-- ===== src/Mql/Match.antt =====
-- internal/mql/mql.go: `Matches` and `matchValue`.
--
-- The two functions recur on the filter. A filter's key, and an operator's name, are first
-- classified (`filter_key`, `operator`), then the switch is a case of each class. The recursion
-- passes through the nested value, so the switches (`clause`, `test_operator`) take the recursive
-- calls as functions.
pub mod Keys
pub mod Operators
pub mod Order
pub mod Logic
use timongo.Prelude.{String, Bool, true, false, not, Option, ◌&&◌, ◌||◌}
use timongo.Value.{
  Value, doc, map_any, arr, slice, docs, Fields, end, field, Values, nil, cons, Docs, no_docs,
  and_doc, Doc, entries, fields,
}
use timongo.Go.{Go}
use timongo.Mql.Path.{value_by_path}
use timongo.Mql.Match.Keys.{FilterKey, filter_key, operator}
use timongo.Mql.Match.Operators.{is_value, test_operator}

-- The switch of `Matches`: `every` and `some_one` say that every item, and that some item, of the
-- clause's array is a filter which the document matches.
abbrev pub clause : FilterKey → (Unit {0} → Bool) → (Unit {0} → Bool) → (Unit {0} → Bool) → Bool
clause FilterKey.and every some_one value = every tt
clause FilterKey.or every some_one value = some_one tt
clause FilterKey.nor every some_one value = not (some_one tt)
clause FilterKey.ignored every some_one value = true
clause FilterKey.path every some_one value = value tt

module _ {F : Type 0} ⦃go : Go F⦄ where
  unfoldable mutual
    -- `Matches(doc, filter)`: a conjunction over the filter's entries.
    pub match_fields : Doc F → Fields F → Bool
    match_fields d end = true
    match_fields d (field key want rest) = match_clause d key want && match_fields d rest

    pub match_clause : Doc F → String → Value F → Bool
    match_clause d key (arr a) =
        clause (filter_key key) (λ _. every_item d a) (λ _. some_item d a)
          (λ _. is_value (value_by_path d key) (arr a))
    match_clause d key (slice a) =
        clause (filter_key key) (λ _. every_item d a) (λ _. some_item d a)
          (λ _. is_value (value_by_path d key) (slice a))
    match_clause d key (docs a) =
        clause (filter_key key) (λ _. every_doc d a) (λ _. some_doc d a)
          (λ _. is_value (value_by_path d key) (docs a))
    match_clause d key (doc ops) =
        clause (filter_key key) (λ _. true) (λ _. false) (λ _. match_ops (value_by_path d key) ops)
    match_clause d key want =
        clause (filter_key key) (λ _. true) (λ _. false) (λ _. is_value (value_by_path d key) want)

    -- `Matches(doc, asMap(raw))`
    pub match_item : Doc F → Value F → Bool
    match_item d (doc m) = match_fields d m
    match_item d (map_any m) = match_fields d m
    match_item d _ = true

    pub every_item : Doc F → Values F → Bool
    every_item d nil = true
    every_item d (cons x xs) = match_item d x && every_item d xs

    pub some_item : Doc F → Values F → Bool
    some_item d nil = false
    some_item d (cons x xs) = match_item d x || some_item d xs

    pub every_doc : Doc F → Docs F → Bool
    every_doc d no_docs = true
    every_doc d (and_doc m ms) = match_fields d m && every_doc d ms

    pub some_doc : Doc F → Docs F → Bool
    some_doc d no_docs = false
    some_doc d (and_doc m ms) = match_fields d m || some_doc d ms

    -- `matchValue(got, exists, want)`, where `want` is a `bson.M`: a conjunction over operators.
    pub match_ops : Option (Value F) → Fields F → Bool
    match_ops found end = true
    match_ops found (field op arg rest) = match_op found op arg && match_ops found rest

    pub match_op : Option (Value F) → String → Value F → Bool
    match_op found op (doc m) =
        test_operator (operator op) found (doc m) (λ item. match_fields item m)
          (λ _. match_ops found m)
    match_op found op (map_any m) =
        test_operator (operator op) found (map_any m) (λ item. match_fields item m)
          (λ _. is_value found (map_any m))
    match_op found op arg =
        test_operator (operator op) found arg (λ _. true) (λ _. is_value found arg)

  -- `matchValue(got, exists, want)`
  unfoldable pub match_value : Option (Value F) → Value F → Bool
  match_value found (doc ops) = match_ops found ops
  match_value found want = is_value found want

  -- `Matches(doc, filter)`
  unfoldable pub matches : Doc F → Doc F → Bool
  matches d filter = match_fields d (fields filter)
