-- ===== src/Tests/Handlers.antt =====
-- The theorems of internal/handler/handler.go, at concrete inputs.
use text.Mathlib.Text.{◌==◌}
use timongo.Prelude.{
  ℕ, String, true, List, [], ◌∷◌, none, some, if◌then◌else◌, ◌≡◌, refl, ok, err, all, inr,
}
use timongo.Prelude.Int.{ℤ, pos}
use timongo.Prelude.Text.{◌+++◌}
use timongo.Prelude.Dict.{lookup}
use timongo.Value.{Value, str, int64, float64, Doc, of_doc, of_list}
use timongo.Backend.Calls.{StoreCall, perform_all}
use timongo.Command.{command_name}
use timongo.Memory.Store.{new_store, namespace}
use timongo.Bsonutil.{document_id_key}
use timongo.Memory.Update.{Instant}
use timongo.Memory.Served.{memory_store}
use timongo.Memory.Indexed.{IsIndexed}
use timongo.Memory.Refines.{view}
use timongo.Handler.{OnCollection, branch, handle, on_collection}
use timongo.Handler.Arguments.{bad_value, required_string, split_namespace, cut_dot}
use timongo.Handler.Replies.{ok_reply, fixed_command}
use timongo.Handler.Commands.{rename_collection}
use timongo.Handler.Calls.{permits_branch}
use timongo.Handler.Calls.Laws.{handle-calls, handle-no_collection_name, handle-ok_field}
use timongo.Handler.InMemory.{serve, serve-IsIndexed}
use timongo.Handler.Rename.{rename_collection-moves, source_ns, target_ns}
use timongo.Tests.{num, whole, item, shelf}

abbrev pub ticks : ℕ → ℕ → Instant
ticks i j = record { millis = λ n. pos i; upsert_millis = pos i; nanos = pos j }

-- A command of the database `db`.
abbrev command : String → Value ℤ → Doc ℤ → Doc ℤ
command name value rest = (name, value) ∷ ("$db", str "db") ∷ rest

abbrev insert_one : Doc ℤ
insert_one = command "insert" (str "c") (("documents", of_list (of_doc (item "d" 4) ∷ [])) ∷ [])

abbrev count_all : Doc ℤ
count_all = command "count" (str "c") []

abbrev insert_nowhere : Doc ℤ
insert_nowhere = command "insert" (num 7) []

handle-calls_example :
    (calls : List (StoreCall ℤ)) × (all (permits_branch (branch "insert") "db" "c" "") calls ≡ true)
    × ((handle (memory_store ticks) insert_one (shelf, 0)).0
        ≡ perform_all (memory_store ticks) calls (shelf, 0))
unfolding command_name lookup
handle-calls_example =
    handle-calls (memory_store ticks) insert_one (shelf, 0) "insert" (str "c") refl

handle-no_collection_name_example :
    handle (memory_store ticks) insert_nowhere (shelf, 0)
    ≡ ((shelf, 0), err (bad_value ("insert" +++ " must be a collection name")))
unfolding command_name lookup branch fixed_command on_collection
handle-no_collection_name_example =
    handle-no_collection_name (memory_store ticks) insert_nowhere (shelf, 0) OnCollection.insert
      (num 7) refl refl

abbrev counted : Doc ℤ
counted = ok_reply (("n", int64 (pos 3)) ∷ [])

handle-ok_field_example : lookup "ok" counted ≡ some (float64 (pos 1))
unfolding command_name lookup branch fixed_command on_collection handle timongo.Handler.run_branch
    timongo.Handler.run_on_collection timongo.Handler.Commands.count_command required_string
    timongo.Handler.Arguments.doc_field timongo.Memory.Read.count timongo.Memory.Read.find namespace
    timongo.Mql.Sort.sort_docs timongo.Mql.Match.matches timongo.Mql.Match.match_fields
    timongo.Mql.Options.apply_find_options
handle-ok_field_example = handle-ok_field (memory_store ticks) count_all (shelf, 0) counted refl

serve-IsIndexed_example : IsIndexed (serve ticks (insert_one ∷ count_all ∷ []) (new_store, 0)).0
serve-IsIndexed_example = serve-IsIndexed ticks (insert_one ∷ count_all ∷ [])

abbrev without_d : StoreCall ℤ
without_d =
    StoreCall.delete_many "db" "c" (record { filter = ("_id", str "d") ∷ []; limit = pos 0 } ∷ [])

-- Renames `db.c` to `db.e`, which is not there.
abbrev rename_c : Doc ℤ
rename_c = command "renameCollection" (str "db.c") (("to", str "db.e") ∷ [])

rename_collection-moves_example :
    ((rename_collection (memory_store ticks) rename_c "db.c" (shelf, 4)).1 ≡ ok (ok_reply []))
    × ((ns' key : String)
        → view (rename_collection (memory_store ticks) rename_c "db.c" (shelf, 4)).0.0 ns' key ≡ (
            if source_ns rename_c "db.c" "db.e" == ns'
            then none
            else if target_ns rename_c "db.c" "db.e" == ns'
            then view shelf (source_ns rename_c "db.c" "db.e") key
            else view shelf ns' key))
unfolding required_string lookup split_namespace cut_dot namespace document_id_key
rename_collection-moves_example =
    rename_collection-moves rename_c "db.c" "db.e" ticks shelf 4 refl
      (refl, refl, (refl, refl, (refl, refl, tt))) (inr refl)
