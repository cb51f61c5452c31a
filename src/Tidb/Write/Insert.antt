-- ===== src/Tidb/Write/Insert.antt =====
-- internal/backend/tidb/store.go: `Insert` writes all of its documents or none.
use timongo.Prelude.{
  String, ℕ, List, [], ◌∷◌, none, ◌≡◌, refl, ◌∙◌, Result, ok, err, panic, ◌⊎◌, inl, inr, length,
  subst, sym, ap,
}
use timongo.Prelude.Calls.{and_then, and_then-case, lift, done, ◌>>=◌}
use timongo.Prelude.Dict.{lookup}
use timongo.Value.{Doc, of_doc}
use timongo.Go.{Go}
use timongo.Bsonutil.{document_id_key}
use timongo.Bsonutil.ExtJson.{ExtJson, marshal_ext_json}
use timongo.Mql.Schema.{validate_json_schema}
use timongo.Tidb.Schema.{physical_table_name}
use timongo.Tidb.Connection.{Connection}
use timongo.Tidb.Catalog.{create_in_tidb, collection_validator}
use timongo.Tidb.Write.{insert_document, insert_documents, insert_transaction, insert_in_tidb}
use timongo.Tidb.Write.Tables.{Table, Puts, IsSql, create-unchanged, validator-unchanged}

module _ {F : Type 0} ⦃go : Go F⦄ (json : ExtJson F) (pretty : String → String) where
  -- One document more: a row under the key of its `_id`, where there was none.
  abbrev pub AddsOne : Doc F → Table → Table → Type 0
  AddsOne d before after =
      (key : String) × (raw : String) × (document_id_key d ≡ ok key)
      × (marshal_ext_json json d ≡ ok raw)
      × (lookup key before ≡ none)
      × Puts key (pretty raw) before after

  -- These documents more, one after the other.
  abbrev pub Adds : List (Doc F) → Table → Table → Type 0
  Adds [] before after = after ≡ before
  Adds (d ∷ ds) before after = (mid : Table) × AddsOne d before mid × Adds ds mid after

module _ {F C : Type 0} ⦃go : Go F⦄ {conn : Connection F C} {json : ExtJson F} {table : List ℕ}
    {rows pending : C → Table} {pretty : String → String}
    (sql : IsSql conn json table rows pending pretty) where
  -- In a transaction: the committed rows are left alone, and the transaction sees the change `A`.
  abbrev InTx : (Table → Table → Type 0) → C → C × Result (Unit {0}) → Type 0
  InTx A c out = (rows out.0 ≡ rows c) × (out.1 ≡ ok tt → A (pending c) (pending out.0))

  insert_document-InTx :
      (validator d : Doc F) (c : C)
      → InTx (AddsOne json pretty d) c (insert_document conn json table validator d c)
  unfolding insert_document
  insert_document-InTx validator d c =
      and_then-case (InTx (AddsOne json pretty d) c)
        (lift (validate_json_schema (of_doc validator) d) c) _
        (λ u _.
          and_then-case (InTx (AddsOne json pretty d) c) (lift (document_id_key d) c) _
            (λ key keyed.
              and_then-case (InTx (AddsOne json pretty d) c) (lift (marshal_ext_json json d) c) _
                (λ raw stored.
                  let (same, put) = sql.inserted key raw c in
                  (same, λ e. let (fresh, puts) = put e in (key, raw, keyed, stored, fresh, puts)))
                (λ e _. (refl, λ h. cc)) (λ _. (refl, λ h. cc)))
            (λ e _. (refl, λ h. cc)) (λ _. (refl, λ h. cc)))
        (λ e _. (refl, λ h. cc)) λ _. (refl, λ h. cc)

  insert_documents-InTx :
      (validator : Doc F) (ds : List (Doc F)) (c : C)
      → InTx (Adds json pretty ds) c (insert_documents conn json table validator ds c)
  unfolding insert_documents
  insert_documents-InTx validator [] c = (refl, λ _. refl)
  insert_documents-InTx validator (d ∷ ds) c =
      let (same, added) = insert_document-InTx validator d c in
      and_then-case (InTx (Adds json pretty (d ∷ ds)) c)
        (insert_document conn json table validator d c) _
        (λ u e.
          let s = (insert_document conn json table validator d c).0 in
          let (same', rest) = insert_documents-InTx validator ds s in
          (same' ∙ same, λ e'. (pending s, added e, rest e')))
        (λ x e. (same, λ h. cc)) λ e. (same, λ h. cc)

  -- The state that a COMMIT left that reported `r`, after `Rollback`.
  abbrev pub CommitEnded : C → Result (Unit {0}) → Type 0
  CommitEnded c r = (s : C) × ((conn.commit s).1 ≡ r) × (c ≡ conn.rollback (conn.commit s).0)

  -- All of the documents or none, by the result. Where an error is reported, only a COMMIT that
  -- reported this error may have written them.
  abbrev pub AllOrNone : List (Doc F) → Table → C × Result ℕ → Type 0
  AllOrNone ds before (c, ok n) = (n ≡ length ds) × Adds json pretty ds before (rows c)
  AllOrNone ds before (c, err e) =
      (rows c ≡ before) ⊎ (Adds json pretty ds before (rows c) × CommitEnded c (err e))
  AllOrNone ds before (c, panic) =
      (rows c ≡ before) ⊎ (Adds json pretty ds before (rows c) × CommitEnded c panic)

  abbrev Wrote : List (Doc F) → Table → C × Result (Unit {0}) → Type 0
  Wrote ds before out =
      ((rows out.0 ≡ before)
        ⊎ (Adds json pretty ds before (rows out.0) × ((s : C) × (conn.commit s ≡ out))))
      × (out.1 ≡ ok tt → Adds json pretty ds before (rows out.0))

  commit-Wrote :
      (ds : List (Doc F)) (before : Table) (c : C)
      → rows c ≡ before
      → Adds json pretty ds before (pending c)
      → Wrote ds before (conn.commit c)
  commit-Wrote ds before c same added =
      let (either, done_it) = sql.committed c in
      (
        elim either [
          | inl e ↦ inl (e ∙ same)
          | inr e ↦ inr (subst (Adds json pretty ds before) (sym e) added, (c, refl))
        ],
        λ e. subst (Adds json pretty ds before) (sym (done_it e)) added,
      )

  body-Wrote :
      (validator : Doc F) (ds : List (Doc F)) (before : Table) (c : C)
      → rows c ≡ before
      → pending c ≡ before
      → Wrote ds before ((insert_documents conn json table validator ds >>= λ _. conn.commit) c)
  body-Wrote validator ds before c same seen =
      let (same', added) = insert_documents-InTx validator ds c in
      and_then-case (Wrote ds before) (insert_documents conn json table validator ds c) _
        (λ u e.
          commit-Wrote ds before (insert_documents conn json table validator ds c).0 (same' ∙ same)
            (subst
              (λ b.
                Adds json pretty ds b (pending (insert_documents conn json table validator ds c).0))
              seen (added e)))
        (λ e _. (inl (same' ∙ same), λ h. cc)) λ _. (inl (same' ∙ same), λ h. cc)

  -- `Rollback` after the transaction leaves the rows and the result.
  rolled_back-Wrote :
      (ds : List (Doc F)) (before : Table) (c : C) (r : Result (Unit {0}))
      → (rows c ≡ before)
        ⊎ (Adds json pretty ds before (rows c) × ((s : C) × (conn.commit s ≡ (c, r))))
      → (rows (conn.rollback c) ≡ before)
        ⊎ (Adds json pretty ds before (rows (conn.rollback c)) × CommitEnded (conn.rollback c) r)
  rolled_back-Wrote ds before c r (inl same) = inl (sql.rolled_back c ∙ same)
  rolled_back-Wrote ds before c r (inr (added, (s, e))) = inr (
    subst (Adds json pretty ds before) (sym (sql.rolled_back c)) added,
    (s, ap (λ p. p.1) e, ap (λ p. conn.rollback p.0) (sym e)),
  )

  counted :
      (ds : List (Doc F)) (before : Table) (out : C × Result (Unit {0}))
      → Wrote ds before out
      → AllOrNone ds before (and_then (conn.rollback out.0, out.1) λ _. done (length ds))
  counted ds before (c, ok u) h =
      (refl, subst (Adds json pretty ds before) (sym (sql.rolled_back c)) (h.1 refl))
  counted ds before (c, err e) h = rolled_back-Wrote ds before c (err e) h.0
  counted ds before (c, panic) h = rolled_back-Wrote ds before c panic h.0

  insert_transaction-AllOrNone :
      (validator : Doc F) (ds : List (Doc F)) (before : Table) (c : C)
      → rows c ≡ before
      → AllOrNone ds before (insert_transaction conn json table validator ds c)
  unfolding insert_transaction
  insert_transaction-AllOrNone validator ds before c same =
      let (still, seen) = sql.begun c in
      and_then-case (AllOrNone ds before) (conn.begin c) _
        (λ u e.
          counted ds before _
            (body-Wrote validator ds before (conn.begin c).0 (still ∙ same) (seen e ∙ same)))
        (λ e _. inl (still ∙ same)) λ _. inl (still ∙ same)

module _ {F C : Type 0} ⦃go : Go F⦄ {conn : Connection F C} {json : ExtJson F}
    {rows pending : C → Table} {pretty : String → String} (db collection : String)
    (sql : IsSql conn json (physical_table_name db collection) rows pending pretty) where
  -- An Insert on TiDB writes all of its documents into the table or none. One that succeeds reports
  -- their number and adds each under the key of its `_id`, which no row had. Of one that fails nothing
  -- stays, unless its error is what the COMMIT reported: then all or nothing is there.
  pub insert_in_tidb-AllOrNone :
      (ds : List (Doc F)) (c : C)
      → AllOrNone sql ds (rows c) (insert_in_tidb conn json db collection ds c)
  unfolding insert_in_tidb
  insert_in_tidb-AllOrNone ds c =
      let s = create_in_tidb conn json db collection [] c in
      let still = create-unchanged sql c db collection [] c refl in
      and_then-case (AllOrNone sql ds (rows c)) s _
        (λ u _.
          let v = collection_validator conn json db collection s.0 in
          let still' = validator-unchanged sql c db collection s.0 still in
          and_then-case (AllOrNone sql ds (rows c)) v _
            (λ validator _. insert_transaction-AllOrNone sql validator ds (rows c) v.0 still')
            (λ e _. inl still') λ _. inl still')
        (λ e _. inl still) λ _. inl still
