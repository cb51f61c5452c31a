-- ===== src/Handler/OnTidb.antt =====
-- internal/handler/handler.go over internal/backend/tidb/store.go: what commands that read leave alone.
use timongo.Prelude.{arith, String, ℕ, Option, none, some, true, ap, ◌≡◌, refl, ◌∙◌, ok}
use timongo.Prelude.Int.{ℤ}
use timongo.Prelude.Calls.{Keeps, Keeps-lift, Keeps-seq}
use timongo.Value.{Doc, Value}
use timongo.Go.{Go}
use timongo.Mql.Schema.{text_or_empty}
use timongo.Mql.Update.Operators.{get}
use timongo.Backend.Calls.{StoreCall, perform}
use timongo.Bsonutil.ExtJson.{ExtJson}
use timongo.Command.{command_name}
use timongo.Memory.Update.{Instant}
use timongo.Tidb.Connection.{Connection}
use timongo.Tidb.Rows.{read_indexes}
use timongo.Tidb.Read.{asks}
use timongo.Tidb.Read.Still.{
  MakesOnly, Still, find-Still, count-Still, distinct-Still, aggregate-Still,
}
use timongo.Tidb.Catalog.{list_in_tidb}
use timongo.Tidb.Indexes.{indexes_of, list_indexes_in_tidb}
use timongo.Tidb.Served.{TidbState, tidb_store}
use timongo.Handler.{OnCollection, Branch, branch, handle}
use timongo.Handler.Calls.{permits, permits_branch}
use timongo.Handler.Calls.Laws.{handle-calls, perform_all-keeps}
use timongo.Handler.InMemory.{is_read}

module _ {F C V : Type 0} ⦃go : Go F⦄ (conn : Connection F C) (json : ExtJson F)
    (clock : ℕ → ℕ → Instant) (view : C → V) (made : MakesOnly conn view) where
  index_unchanged : (found : Option ℤ) (c : C) → Keeps (Still view c) (indexes_of conn json found)
  unfolding indexes_of
  index_unchanged none c s h = h
  index_unchanged (some id) c s h =
      Keeps-seq (Still view c) (asks (conn.query_pairs _)) _ (λ t e. e)
        (λ rows. Keeps-lift (Still view c) (read_indexes json rows) _ λ stored t e. e) s h

  list_indexes_unchanged :
      (db coll : String) (c : C) → Keeps (Still view c) (list_indexes_in_tidb conn json db coll)
  unfolding list_indexes_in_tidb
  list_indexes_unchanged db coll c =
      Keeps-seq (Still view c) (asks (conn.query_number _)) _ (λ t e. e)
        λ found. index_unchanged found c

  list_unchanged :
      (db : String) (wanted : Doc F) (c : C)
      → Keeps (Still view c) (list_in_tidb conn json db wanted)
  unfolding list_in_tidb
  list_unchanged db wanted c =
      Keeps-seq (Still view c) (asks (conn.query_pairs _)) _ (λ t e. e) λ rows t e. e

  read_keeps :
      (c : OnCollection) (db coll : String) (call : StoreCall F) (s : TidbState C)
      → is_read (Branch.collection c) ≡ true
      → permits c db coll call ≡ true
      → view (perform (tidb_store conn json clock) call s).0 ≡ view s.0
  read_keeps OnCollection.find db coll (StoreCall.find db' coll' req) (s, i) r h =
      find-Still conn json view made s db' coll' req s refl
  read_keeps OnCollection.count db coll (StoreCall.count db' coll' f) (s, i) r h =
      count-Still conn json view made s db' coll' f s refl
  read_keeps OnCollection.distinct db coll (StoreCall.distinct db' coll' key f) (s, i) r h =
      distinct-Still conn json view made s db' coll' key f s refl
  read_keeps OnCollection.aggregate db coll (StoreCall.aggregate db' coll' p) (s, i) r h =
      aggregate-Still conn json view made s db' coll' p s refl
  read_keeps OnCollection.list_indexes db coll (StoreCall.list_indexes db' coll') (s, i) r h =
      list_indexes_unchanged db' coll' s s refl
  read_keeps c db coll call s r h = ground arith

  reads_keep :
      (b : Branch) (db coll to : String) (call : StoreCall F) (s : TidbState C)
      → is_read b ≡ true
      → permits_branch b db coll to call ≡ true
      → view (perform (tidb_store conn json clock) call s).0 ≡ view s.0
  reads_keep (Branch.collection c) db coll to call s r h = read_keeps c db coll call s r h
  reads_keep Branch.list_collections db coll to (StoreCall.list_collections db' wanted) (s, i) r h =
      list_unchanged db' wanted s s refl
  reads_keep b db coll to call s r h = ground arith

  -- A command that reads changes nothing on TiDB that making a table leaves as it was, whether the
  -- command succeeds or not: the rows of every table that is there, and the catalog.
  pub handle-reads_in_tidb :
      (cmd : Doc F) (s : TidbState C) (name : String) (value : Value F)
      → command_name cmd ≡ ok (name, value)
      → is_read (branch name) ≡ true
      → view (handle (tidb_store conn json clock) cmd s).0.0 ≡ view s.0
  handle-reads_in_tidb cmd s name value e r =
      let store = tidb_store conn json clock in
      let P =
        permits_branch (branch name) (text_or_empty (get "$db" cmd)) (text_or_empty value)
          (text_or_empty (get "to" cmd)) in
      let (calls, allowed, state) = handle-calls store cmd s name value e in
      ap (λ t. view t.0) state
      ∙ perform_all-keeps store cmd P (λ s'. view s'.0 ≡ view s.0)
          (λ call s' permitted h. reads_keep (branch name) _ _ _ call s' r permitted ∙ h) calls s
          allowed refl
