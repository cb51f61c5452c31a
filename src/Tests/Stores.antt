-- ===== src/Tests/Stores.antt =====
-- The theorems of internal/backend/memory/memory.go, at concrete inputs.
use timongo.Memory.Update.Laws.{AllUpdated, update_many-multi}
use timongo.Memory.Update.{Instant, update_many}
use text.Mathlib.Text.{◌==◌}
use timongo.Prelude.{
  Result, ◌>>=◌, ℕ, ◌+◌, String, true, false, List, [], ◌∷◌, ◌++◌, none, if◌then◌else◌, ◌≡◌, refl,
  ok, panic, length, min, any, ◌↔◌,
}
use timongo.Prelude.Int.{ℤ, pos}
use timongo.Prelude.Text.{◌+++◌}
use timongo.Prelude.Dict.{lookup, or_else}
use timongo.Value.{Value, str, Doc, of_doc}
use timongo.Backend.{DeleteModel, UpdateModel, UpdateResult}
use timongo.Memory.Store.{Store, namespace, documents, drop_collection, new_store}
use timongo.Memory.Insert.{insert_many, validator_of}
use timongo.Memory.Insert.Laws.{keyed, insert_many-ok, insert_many-front, StopsAt}
use timongo.Memory.Delete.{delete_many}
use timongo.Memory.Delete.Laws.{unmatched, delete_many-all}
use timongo.Memory.Read.{matching, count, distinct}
use timongo.Memory.Read.Laws.{unhashable_at, distinct-panic_iff}
use timongo.Memory.Keys.{AllKeyed}
use timongo.Memory.Reach.{Step, Reach, Reach-AllKeyed}
use timongo.Tests.{num, whole, item, on_n, three, shelf}

abbrev filled : Store ℤ
filled = (insert_many "db" "c" three new_store).0

-- Inserts into the empty store.
insert_many-ok_example :
    (3 ≡ length three)
    × (length (documents (namespace "db" "c") filled)
        ≡ length (documents (namespace "db" "c") (new_store {F = ℤ})) + length three)
    × ((k : String)
        → lookup k (documents (namespace "db" "c") filled)
          ≡ or_else (lookup k (documents (namespace "db" "c") new_store)) (keyed k three))
    × ((ns' : String)
        → documents ns' filled ≡ (
            if namespace "db" "c" == ns'
            then documents (namespace "db" "c") filled
            else documents ns' new_store))
unfolding insert_many timongo.Memory.Insert.insert_docs timongo.Memory.Insert.admit
    timongo.Mql.Schema.validate_json_schema lookup new_store timongo.Bsonutil.document_id_key
    timongo.Prelude.Dict.insert namespace
insert_many-ok_example = insert_many-ok "db" "c" three new_store 3 refl

-- The second document has the key of the first.
abbrev clash : List (Doc ℤ)
clash = item "x" 1 ∷ item "x" 2 ∷ []

insert_many-front_example :
    (front : List (Doc ℤ)) × (rest : List (Doc ℤ)) × (clash ≡ front ++ rest)
    × ((insert_many "db" "c" front shelf).1 ≡ ok (length front))
    × (documents (namespace "db" "c") (insert_many "db" "c" front shelf).0
        ≡ documents (namespace "db" "c") (insert_many "db" "c" clash shelf).0)
    × (r : Result (Unit {0})) × StopsAt
        (validator_of (namespace "db" "c") shelf)
        rest
        (documents (namespace "db" "c") (insert_many "db" "c" clash shelf).0)
        r
    × ((insert_many "db" "c" clash shelf).1 ≡ (r >>= λ _. ok (length clash)))
insert_many-front_example = insert_many-front "db" "c" clash shelf

-- Deletes of the documents whose `n` is above 1.
abbrev every : DeleteModel ℤ
every = record { filter = on_n "$gt" 1; limit = pos 0 }

abbrev one : DeleteModel ℤ
one = record { filter = on_n "$gt" 1; limit = pos 1 }

abbrev after_every : Store ℤ
after_every = (delete_many "db" "c" (every ∷ []) shelf).0

delete_many-all_example :
    ((delete_many "db" "c" (every ∷ []) shelf).1 ≡ count "db" "c" (on_n "$gt" 1) shelf)
    × (documents (namespace "db" "c") after_every
        ≡ unmatched (on_n "$gt" 1) (documents (namespace "db" "c") shelf))
    × (count "db" "c" (on_n "$gt" 1) after_every ≡ 0)
    × ((ns' : String)
        → documents ns' after_every ≡ (
            if namespace "db" "c" == ns'
            then documents (namespace "db" "c") after_every
            else documents ns' shelf))
delete_many-all_example = delete_many-all "db" "c" every shelf refl

-- Reads.
distinct-panic_iff_example : (distinct "db" "c" "n" (on_n "$gt" 1) shelf ≡ panic) ↔ (
    any (unhashable_at "n") (matching (on_n "$gt" 1) (documents (namespace "db" "c") shelf)) ≡ true)
distinct-panic_iff_example = distinct-panic_iff "db" "c" "n" (on_n "$gt" 1) shelf

-- Drops.
abbrev dropped : Store ℤ
dropped = drop_collection "db" "c" shelf

-- A history: an insert, an update of two documents and a delete.
abbrev raise : UpdateModel ℤ
raise = record {
  filter = on_n "$gt" 1;
  update = ("$set", of_doc (("n", num 9) ∷ [])) ∷ [];
  multi = true;
  upsert = false;
}

abbrev clock : ℕ → Instant
clock i = record { millis = λ n. pos i; upsert_millis = pos i; nanos = pos i }

abbrev raised : Store ℤ
raised = (update_many clock "db" "c" (raise ∷ []) filled).0

-- The first and the third document get `n: 9`.
abbrev lifted : Store ℤ
lifted = (update_many clock "db" "c" (raise ∷ []) shelf).0

abbrev two_updated : UpdateResult ℤ
two_updated = record { matched = 2; modified = 2; upserted = [] }

raise_two : (update_many clock "db" "c" (raise ∷ []) shelf).1 ≡ ok two_updated
unfolding update_many lookup namespace timongo.Mql.Match.matches timongo.Mql.Match.match_fields
    timongo.Mql.Match.Keys.filter_key timongo.Mql.Match.Operators.test_operator
    timongo.Mql.Match.Keys.operator timongo.Mql.Path.value_by_path timongo.Mql.Compare.compare
    timongo.Mql.Compare.is_number timongo.Mql.Compare.to_float timongo.Mql.Update.apply_update
    timongo.Prelude.Text.starts_with_dollar timongo.Mql.Update.Operators.update_operator
    timongo.Mql.Update.apply_fields timongo.Value.as_map timongo.Mql.Update.Operators.update_field
raise_two = refl

update_many-multi_example :
    (two_updated.matched ≡ count "db" "c" (on_n "$gt" 1) shelf)
    × (two_updated.modified ≡ two_updated.matched)
    × AllUpdated
        (λ n. pos 0)
        raise
        (documents (namespace "db" "c") shelf)
        (documents (namespace "db" "c") lifted)
    × ((ns' : String)
        → documents ns' lifted ≡ (
            if namespace "db" "c" == ns'
            then documents (namespace "db" "c") lifted
            else documents ns' shelf))
unfolding lookup
update_many-multi_example =
    update_many-multi clock "db" "c" raise shelf two_updated refl refl refl raise_two

history : Reach (delete_many "db" "c" (one ∷ []) raised).0
unfolding timongo.Mql.Update.operator_style timongo.Prelude.Text.starts_with_dollar
    timongo.Mql.Update.Operators.update_operator timongo.Value.as_map
history =
    Reach.next
      (Reach.next (Reach.next Reach.start (Step.add "db" "c" three)) (
        Step.update (λ i. record { millis = λ n. pos i; upsert_millis = pos i; nanos = pos i }) "db"
          "c" (raise ∷ []) ((refl, refl), tt)))
      (Step.delete "db" "c" (one ∷ []))

Reach-AllKeyed_example : AllKeyed (delete_many "db" "c" (one ∷ []) raised).0
Reach-AllKeyed_example = Reach-AllKeyed history
