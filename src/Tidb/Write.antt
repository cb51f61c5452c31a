-- ===== src/Tidb/Write.antt =====
-- internal/backend/tidb/store.go: `Insert`, `Update`, `Delete` and `replaceDocument`.
--
-- The clock and the arrays of documents are modelled as in Memory/Update.
pub mod Tables
pub mod Insert
pub mod Update
pub mod Round
pub mod Rounds
pub mod Delete
pub mod Partly
use timongo.Prelude.{String, ℕ, suc, ◌+◌, List, [], ◌∷◌, ◌++◌, if◌then◌else◌, eqb, ◌&&◌, length}
use timongo.Prelude.Int.{ℤ, pos, eqb_ℤ}
use timongo.Prelude.Text.{◌+++◌, print_ℤ}
use timongo.Prelude.Calls.{Call, ◌>>=◌, ◌>>◌, lift, done}
use timongo.Prelude.Dict.{has, insert}
use timongo.Value.{str, bytes, Doc, of_doc}
use timongo.Go.{Go}
use timongo.Bsonutil.{document_id_key}
use timongo.Bsonutil.ExtJson.{ExtJson, marshal_ext_json}
use timongo.Mql.Match.{matches}
use timongo.Mql.Schema.{validate_json_schema}
use timongo.Mql.Update.{apply_update}
use timongo.Backend.{UpdateModel, UpdateResult, DeleteModel}
use timongo.Memory.Read.{by_filter}
use timongo.Memory.Update.{Instant, add_matched, add_upserted, no_updates}
use timongo.Tidb.Schema.{codes, physical_table_name}
use timongo.Tidb.Connection.{Connection, Argument, value}
use timongo.Tidb.Read.{find_in_tidb}
use timongo.Tidb.Catalog.{create_in_tidb, collection_validator}

abbrev pub insert_row : List ℕ → List ℕ
insert_row table =
    codes "INSERT INTO `"
    ++ table
    ++ codes
        "` (`id_key`, `id_bson`, `doc_bson`, `doc_json`, `revision`) VALUES (?, ?, ?, CAST(? AS JSON), 1)"

abbrev pub replace_row : List ℕ → List ℕ
replace_row table =
    codes "REPLACE INTO `"
    ++ table
    ++ codes
        "` (`id_key`, `id_bson`, `doc_bson`, `doc_json`, `revision`) VALUES (?, ?, ?, CAST(? AS JSON), 1)"

abbrev pub delete_row : List ℕ → List ℕ
delete_row table = codes "DELETE FROM `" ++ table ++ codes "` WHERE `id_key` = ?"

-- `key, key, raw, string(raw)`
abbrev pub row_values : {F : Type 0} → ExtJson F → String → String → List (Argument F)
row_values json key raw =
    value (str key) ∷ value (str key) ∷ value (bytes (json.utf8 raw)) ∷ value (str raw) ∷ []

-- The document that an upsert stores.
abbrev pub with_id : {F : Type 0} → Instant → Doc F → Doc F
with_id now d = if has "_id" d then d else insert "_id" (str ("upsert-" +++ print_ℤ now.nanos)) d

module _ {F C : Type 0} ⦃go : Go F⦄ (conn : Connection F C) (json : ExtJson F) where
  -- One round of the loop of `Insert`.
  unfoldable pub insert_document : List ℕ → Doc F → Doc F → Call C (Unit {0})
  insert_document table validator d = do
    lift (validate_json_schema (of_doc validator) d)
    key ← lift (document_id_key d)
    raw ← lift (marshal_ext_json json d)
    conn.tx_exec (insert_row table, row_values json key raw)

  unfoldable pub insert_documents : List ℕ → Doc F → List (Doc F) → Call C (Unit {0})
  unfolding insert_document
  insert_documents table validator [] = done tt
  insert_documents table validator (d ∷ ds) = do
    insert_document table validator d
    insert_documents table validator ds

  -- `defer tx.Rollback()`
  abbrev pub with_rollback : {A : Type 0} → Call C A → Call C A
  with_rollback body c = let (c', r) = body c in (conn.rollback c', r)

  -- From `BeginTx` to the end of `Insert`.
  unfoldable pub insert_transaction : List ℕ → Doc F → List (Doc F) → Call C ℕ
  unfolding insert_documents
  insert_transaction table validator ds = do
    conn.begin
    with_rollback (do insert_documents table validator ds; conn.commit)
    done (length ds)

  -- `Insert`
  unfoldable pub insert_in_tidb : String → String → List (Doc F) → Call C ℕ
  unfolding insert_transaction
  insert_in_tidb db collection ds = do
    create_in_tidb conn json db collection []
    validator ← collection_validator conn json db collection
    insert_transaction (physical_table_name db collection) validator ds

  -- `replaceDocument(table, doc)`
  unfoldable pub replace_document : List ℕ → Doc F → Call C (Unit {0})
  replace_document table d = do
    key ← lift (document_id_key d)
    raw ← lift (marshal_ext_json json d)
    conn.exec (replace_row table, row_values json key raw)

  -- One document that matches.
  unfoldable pub update_document : List ℕ → ℤ → UpdateModel F → Doc F → Call C (Unit {0})
  unfolding replace_document
  update_document table now model d = do
    next ← lift (apply_update now d model.update)
    replace_document table next

  -- The loop over the documents: how many matched.
  unfoldable pub update_documents : List ℕ → (ℕ → ℤ) → UpdateModel F → List (Doc F) → Call C ℕ
  unfolding update_document
  update_documents table now model [] = done 0
  update_documents table now model (d ∷ ds) =
      let rest = update_documents table now model ds in
      if matches d model.filter
      then (update_document table (now (length ds)) model d >>= λ _.
          if model.multi then (rest >>= λ n. done (suc n)) else done 1)
      else rest

  unfoldable pub upsert_document :
      List ℕ → Instant → UpdateModel F → UpdateResult F → Call C (UpdateResult F)
  unfolding replace_document
  upsert_document table now model r = do
    d ← lift (apply_update now.upsert_millis model.filter model.update)
    replace_document table (with_id now d)
    done (add_upserted (with_id now d) r)

  -- One round of the loop over the updates.
  unfoldable pub update_once :
      List ℕ → Instant → UpdateModel F → List (Doc F) → UpdateResult F → Call C (UpdateResult F)
  unfolding update_documents upsert_document
  update_once table now model ds r = do
    n ← update_documents table now.millis model ds
    if eqb n 0 && model.upsert then upsert_document table now model r else done (add_matched n r)

  -- The loop over the updates. Each goes over the documents that were read in front of them all.
  unfoldable pub update_all :
      List ℕ
      → (ℕ → Instant)
      → ℕ
      → List (UpdateModel F)
      → List (Doc F)
      → UpdateResult F
      → Call C (UpdateResult F)
  unfolding update_once
  update_all table clock i [] ds r = done r
  update_all table clock i (model ∷ models) ds r = do
    r' ← update_once table (clock i) model ds r
    update_all table clock (suc i) models ds r'

  -- `Update`
  unfoldable pub update_in_tidb :
      (ℕ → Instant) → String → String → List (UpdateModel F) → Call C (UpdateResult F)
  unfolding update_all
  update_in_tidb clock db collection models = do
    create_in_tidb conn json db collection []
    ds ← find_in_tidb conn json db collection (by_filter [])
    update_all (physical_table_name db collection) clock 0 models ds no_updates

  unfoldable pub delete_document : List ℕ → Doc F → Call C (Unit {0})
  delete_document table d = do
    key ← lift (document_id_key d)
    conn.exec (delete_row table, value (str key) ∷ [])

  -- The loop over the documents: how many went.
  unfoldable pub delete_documents : List ℕ → DeleteModel F → List (Doc F) → Call C ℕ
  unfolding delete_document
  delete_documents table model [] = done 0
  delete_documents table model (d ∷ ds) =
      let rest = delete_documents table model ds in
      if matches d model.filter
      then (delete_document table d >>= λ _.
          if eqb_ℤ model.limit (pos 1) then done 1 else (rest >>= λ n. done (suc n)))
      else rest

  -- The loop over the delete models.
  unfoldable pub delete_all : List ℕ → List (DeleteModel F) → List (Doc F) → Call C ℕ
  unfolding delete_documents
  delete_all table [] ds = done 0
  delete_all table (model ∷ models) ds = do
    n ← delete_documents table model ds
    m ← delete_all table models ds
    done (n + m)

  -- `Delete`
  unfoldable pub delete_in_tidb : String → String → List (DeleteModel F) → Call C ℕ
  unfolding delete_all
  delete_in_tidb db collection models = do
    ds ← find_in_tidb conn json db collection (by_filter [])
    delete_all (physical_table_name db collection) models ds
