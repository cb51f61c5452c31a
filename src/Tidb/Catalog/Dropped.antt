-- ===== src/Tidb/Catalog/Dropped.antt =====
-- internal/backend/tidb/store.go: which tables `DropDatabase` drops.
use timongo.Prelude.{
  arith, String, ℕ, Bool, true, false, List, [], ◌∷◌, any, ◌&&◌, ◌||◌, not, ◌≡◌, ◌∙◌, ap, and_false,
  ok,
}
use timongo.Prelude.Calls.{and_then-eq-ok, lift}
use timongo.Go.{Go}
use timongo.Bsonutil.ExtJson.{ExtJson}
use timongo.Tidb.Schema.{codes, same_codes, physical_table_name}
use timongo.Tidb.Connection.{Connection, Argument, text, Rows}
use timongo.Tidb.Rows.{read_tables}
use timongo.Tidb.Read.{asks}
use timongo.Tidb.Catalog.{
  like_pattern, drop_table, drop_tables, delete_database, drop_database_in_tidb,
}
use timongo.Tidb.Catalog.Pattern.{like, is_word, like-name}

abbrev pub is_listed : List ℕ → List String → Bool
is_listed t tables = any (λ listed. same_codes (codes listed) t) tables

-- What SQL documents of the statements of `DropDatabase`, for the tables that are there.
pub record ShowsTables {F C : Type 0} (conn : Connection F C) (there : C → List ℕ → Bool)
    : Type 0 where
  pub listed :
      (p : List ℕ) (c : C) (rows : Rows String) (tables : List String)
      → conn.query (codes "SHOW TABLES LIKE ?", text p ∷ []) c ≡ ok rows
      → read_tables rows ≡ ok tables
      → (t : List ℕ) → is_listed t tables ≡ (there c t && like p t)
  pub dropped :
      (t other : List ℕ) (c : C)
      → (conn.exec (drop_table t, []) c).1 ≡ ok tt
      → there (conn.exec (drop_table t, []) c).0 other ≡ (there c other && not (same_codes t other))
  pub erased :
      (args : List (Argument F)) (c : C) (t : List ℕ)
      → there (conn.exec (delete_database, args) c).0 t ≡ there c t

but_not :
    (here gone later : Bool) → ((here && not gone) && not later) ≡ (here && not (gone || later))
but_not here gone later = ground arith

but_listed : (here liked : Bool) → (here && not (here && liked)) ≡ (here && not liked)
but_listed here liked = ground arith

module _ {F C : Type 0} ⦃go : Go F⦄ {conn : Connection F C} {there : C → List ℕ → Bool}
    (sql : ShowsTables conn there) (json : ExtJson F) where
  drop_tables-lem :
      (tables : List String) (c : C)
      → (drop_tables conn json tables c).1 ≡ ok tt
      → (t : List ℕ)
      → there (drop_tables conn json tables c).0 t ≡ (there c t && not (is_listed t tables))
  unfolding drop_tables
  drop_tables-lem [] c h t = ground arith
  drop_tables-lem (table ∷ tables) c h t =
      let (u, went, e, h') = and_then-eq-ok (conn.exec (drop_table (codes table), []) c) _ h in
      let s = (conn.exec (drop_table (codes table), []) c).0 in
      ap (λ out. there out.0 t) e
      ∙ drop_tables-lem tables s h' t
      ∙ ap (λ b. b && not (is_listed t tables)) (sql.dropped (codes table) t c went)
      ∙ but_not (there c t) (same_codes (codes table) t) (is_listed t tables)

  drop_database_in_tidb-lem :
      (db : String) (c : C)
      → (drop_database_in_tidb conn json db c).1 ≡ ok tt
      → (t : List ℕ)
      → there (drop_database_in_tidb conn json db c).0 t
        ≡ (there c t && not (like (like_pattern db) t))
  unfolding drop_database_in_tidb
  drop_database_in_tidb-lem db c h t =
      let p = like_pattern db in
      let (rows, asked, e, h') =
        and_then-eq-ok (asks (conn.query (codes "SHOW TABLES LIKE ?", text p ∷ [])) c) _ h in
      let (tables, read, e', h'') = and_then-eq-ok (lift (read_tables rows) c) _ h' in
      let (u, went, e'', done) = and_then-eq-ok (drop_tables conn json tables c) _ h'' in
      ap (λ out. there out.0 t) (e ∙ e' ∙ e'')
      ∙ sql.erased _ (drop_tables conn json tables c).0 t
      ∙ drop_tables-lem tables c went t
      ∙ ap (λ b. there c t && not b) (sql.listed p c rows tables asked read t)
      ∙ but_listed (there c t) (like p t)

  -- A `DropDatabase` that succeeds has dropped exactly the tables that its pattern matches. The table
  -- of each collection of the database is one of them, where both names have a letter or a digit.
  pub drop_database_in_tidb-drops :
      (db collection : String) (c : C)
      → any is_word (codes db) ≡ true
      → any is_word (codes collection) ≡ true
      → (drop_database_in_tidb conn json db c).1 ≡ ok tt
      → ((t : List ℕ)
          → there (drop_database_in_tidb conn json db c).0 t
            ≡ (there c t && not (like (like_pattern db) t)))
        × (there (drop_database_in_tidb conn json db c).0 (physical_table_name db collection)
            ≡ false)
  drop_database_in_tidb-drops db collection c word word' h =
      let gone = drop_database_in_tidb-lem db c h in
      let t = physical_table_name db collection in
      (
        gone,
        gone t ∙ ap (λ b. there c t && not b) (like-name db collection word word') ∙ and_false _,
      )
