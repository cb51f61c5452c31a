-- ===== src/Tests/Tidb.antt =====
-- The theorems of internal/backend/tidb and of commands over it, at concrete inputs.
use timongo.Prelude.{
  ℕ, String, Bool, true, false, List, [], ◌∷◌, ◌≡◌, refl, Result, ok, ◌⊎◌, inl, inr, length, ◌+◌,
  none, some,
}
use timongo.Prelude.Text.{print_ℤ}
use timongo.Prelude.Int.{ℤ, pos}
use timongo.Prelude.Dict.{lookup, insert}
use timongo.Value.{Value, str, Doc, of_doc}
use timongo.Backend.{FindRequest, UpdateModel, UpdateResult, DeleteModel}
use timongo.Bsonutil.{value_key, document_id_key}
use timongo.Command.{command_name}
use timongo.Mql.Match.{matches}
use timongo.Bsonutil.ExtJson.{unmarshal_ext_json, marshal_ext_json}
use timongo.Bsonutil.Normalize.{normalize}
use timongo.Memory.Store.{namespace}
use timongo.Memory.Read.{find, by_filter}
use timongo.Memory.Update.{no_updates}
use timongo.Tidb.Schema.{physical_table_name, document_table_ddl}
use timongo.Tidb.Read.{find_in_tidb, ensure_table}
use timongo.Tidb.Read.Laws.{find_in_tidb-eq-find}
use timongo.Tidb.Read.Shown.{TableRows}
use timongo.Tidb.Catalog.{create_in_tidb}
use timongo.Tidb.Write.{insert_in_tidb, update_in_tidb, delete_in_tidb}
use timongo.Tidb.Write.Insert.{AllOrNone, insert_in_tidb-AllOrNone}
use timongo.Tidb.Write.Partly.{OnlyGone, IsMatched, delete_in_tidb-OnlyGone}
use timongo.Tidb.Write.Round.{RanAll}
use timongo.Tidb.Write.Rounds.{update_in_tidb-Ran}
use timongo.Tidb.Write.Update.{all_updated}
use timongo.Tidb.Write.Delete.{Took, all_picked, delete_in_tidb-Took}
use timongo.Tidb.Served.{tidb_store}
use timongo.Handler.{handle, branch, on_collection}
use timongo.Handler.Replies.{fixed_command}
use timongo.Handler.OnTidb.{handle-reads_in_tidb}
use timongo.Tests.{num, whole, item, shelf}
use timongo.Tests.Handlers.{ticks}
use timongo.Tests.Rows.{Db, texts, stored, one_table, one_table-Selects, one_table-IsSql}

abbrev its_rows : TableRows ℤ
its_rows =
    ("string:a", ("a:3", item "a" 3))
    ∷ ("string:b", ("b:1", item "b" 1))
    ∷ ("string:c", ("c:2", item "c" 2))
    ∷ []

-- The table of `db.c` with the documents of `shelf`.
abbrev full : Db
full = record { rows = stored its_rows; pending = [] }

abbrev by_b : FindRequest ℤ
by_b = by_filter (("_id", str "b") ∷ [])

insert_in_tidb-AllOrNone_example :
    AllOrNone one_table-IsSql
      (item "d" 4 ∷ [])
      full.rows
      (insert_in_tidb one_table texts "db" "c" (item "d" 4 ∷ []) full)
insert_in_tidb-AllOrNone_example =
    insert_in_tidb-AllOrNone "db" "c" one_table-IsSql (item "d" 4 ∷ []) full

handle-reads_in_tidb_example :
    ((handle
      (tidb_store one_table texts ticks)
      (("find", str "c") ∷ ("$db", str "db") ∷ [])
      (full, 0)).0.0
    ).rows
    ≡ full.rows
unfolding command_name lookup branch fixed_command on_collection
handle-reads_in_tidb_example =
    handle-reads_in_tidb one_table texts ticks (λ db. db.rows) one_table-IsSql.made
      (("find", str "c") ∷ ("$db", str "db") ∷ []) (full, 0) "find" (str "c") refl refl

find_in_tidb-eq-find_example :
    find_in_tidb one_table texts "db" "c" by_b full ≡ (full, ok (find "db" "c" by_b shelf))
unfolding ensure_table document_table_ddl unmarshal_ext_json namespace lookup matches value_key
    normalize timongo.Value.as_map timongo.Mql.Match.match_fields timongo.Mql.Match.Keys.filter_key
    timongo.Mql.Path.value_by_path timongo.Mql.Compare.value_equals timongo.Value.as_array
    timongo.Mql.Compare.equal
find_in_tidb-eq-find_example =
    find_in_tidb-eq-find one_table texts "db" "c" its_rows full full by_b shelf refl
      (one_table-Selects its_rows) (refl, (refl, (refl, tt))) (refl, (refl, (refl, tt))) refl
      λ _. inr (str "b", "string:b", refl, refl, refl)

-- Two updates of one document. The second one does not see what the first one wrote.
abbrev set_n : ℕ → Value ℤ → UpdateModel ℤ
set_n n id = record {
  filter = ("_id", id) ∷ [];
  update = ("$set", of_doc (("n", num n) ∷ [])) ∷ [];
  multi = true;
  upsert = false;
}

abbrev twice : List (UpdateModel ℤ)
twice = set_n 3 (str "a") ∷ set_n 4 (str "a") ∷ []

abbrev two_counted : UpdateResult ℤ
two_counted = record { matched = 2; modified = 2; upserted = [] }

update_in_tidb-Ran_example :
    (ds : List (Doc ℤ)) × ((find_in_tidb one_table texts "db" "c"
        (by_filter [])
        (create_in_tidb one_table texts "db" "c" [] full).0).1
      ≡ ok ds)
    × RanAll one_table-IsSql
        (all_updated (ticks 0) 0 twice ds)
        full.rows
        (update_in_tidb one_table texts (ticks 0) "db" "c" twice full).0
        no_updates
        two_counted
unfolding update_in_tidb create_in_tidb timongo.Bsonutil.ExtJson.marshal_ext_json
    timongo.Mql.Update.apply_update insert find_in_tidb document_table_ddl
    timongo.Tidb.FindSql.can_push_down_find timongo.Tidb.FindSql.can_push_down_filter
    unmarshal_ext_json lookup timongo.Mql.Options.apply_find_options timongo.Mql.Sort.sort_docs
    matches document_id_key normalize physical_table_name timongo.Value.as_map
    timongo.Mql.Match.match_fields timongo.Mql.Match.Keys.filter_key timongo.Mql.Path.value_by_path
    timongo.Mql.Compare.value_equals timongo.Value.as_array timongo.Mql.Compare.equal
    timongo.Prelude.Text.starts_with_dollar timongo.Mql.Update.Operators.update_operator
    timongo.Mql.Update.apply_fields timongo.Mql.Update.Operators.update_field
update_in_tidb-Ran_example =
    update_in_tidb-Ran "db" "c" one_table-IsSql (ticks 0) twice two_counted full refl refl

abbrev both : List (DeleteModel ℤ)
both =
    record { filter = []; limit = pos 1 }
    ∷ record { filter = ("_id", str "a") ∷ []; limit = pos 0 }
    ∷ []

delete_in_tidb-Took_example :
    (ds : List (Doc ℤ)) × ((find_in_tidb one_table texts "db" "c" (by_filter []) full).1 ≡ ok ds)
    × Took one_table-IsSql
        (all_picked both ds)
        full.rows
        (delete_in_tidb one_table texts "db" "c" both full).0
        2
unfolding delete_in_tidb find_in_tidb document_table_ddl timongo.Tidb.FindSql.can_push_down_find
    timongo.Tidb.FindSql.can_push_down_filter unmarshal_ext_json lookup
    timongo.Mql.Options.apply_find_options timongo.Mql.Sort.sort_docs matches document_id_key
    normalize physical_table_name timongo.Value.as_map timongo.Mql.Match.match_fields
    timongo.Mql.Match.Keys.filter_key timongo.Mql.Path.value_by_path
    timongo.Mql.Compare.value_equals timongo.Value.as_array timongo.Mql.Compare.equal
delete_in_tidb-Took_example = delete_in_tidb-Took "db" "c" one_table-IsSql both 2 full refl

delete_in_tidb-OnlyGone_example :
    OnlyGone
      (λ key.
        (ds : List (Doc ℤ)) × ((find_in_tidb one_table texts "db" "c" (by_filter []) full).1
          ≡ ok ds)
        × IsMatched both ds key)
      full.rows
      ((delete_in_tidb one_table texts "db" "c" both full).0).rows
delete_in_tidb-OnlyGone_example = delete_in_tidb-OnlyGone "db" "c" one_table-IsSql both full
