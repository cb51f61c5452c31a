-- ===== src/Tidb/Write/Rounds.antt =====
-- internal/backend/tidb/store.go: the rounds of `Update`, each on the documents that were read first.
use timongo.Prelude.{
  all, true, arith, String, ℕ, suc, List, [], ◌∷◌, ◌++◌, ◌≡◌, refl, ◌∙◌, ok, subst, sym, ap,
  length-append, ok-injective,
}
use timongo.Prelude.Calls.{and_then-eq-ok}
use timongo.Value.{Doc}
use timongo.Go.{Go}
use timongo.Bsonutil.ExtJson.{ExtJson}
use timongo.Backend.{UpdateModel, UpdateResult}
use timongo.Memory.Read.{by_filter}
use timongo.Memory.Update.{leaves_arrays, Instant, no_updates}
use timongo.Tidb.Schema.{physical_table_name}
use timongo.Tidb.Connection.{Connection}
use timongo.Tidb.Read.{find_in_tidb}
use timongo.Tidb.Catalog.{create_in_tidb}
use timongo.Tidb.Write.{update_once, update_all, update_in_tidb}
use timongo.Tidb.Write.Tables.{Table, IsSql, create-unchanged, find-unchanged}
use timongo.Tidb.Write.Update.{all_updated, Replaces, Replaces-append}
use timongo.Tidb.Write.Round.{RanAll, update_once-Ran}

module _ {F C : Type 0} ⦃go : Go F⦄ {conn : Connection F C} {json : ExtJson F} {table : List ℕ}
    {rows pending : C → Table} {pretty : String → String}
    (sql : IsSql conn json table rows pending pretty) where
  update_all-Ran :
      (clock : ℕ → Instant) (i : ℕ) (models : List (UpdateModel F)) (ds : List (Doc F))
      (r r' : UpdateResult F) (c : C)
      → (update_all conn json table clock i models ds r c).1 ≡ ok r'
      → RanAll sql
          (all_updated clock i models ds)
          (rows c)
          (update_all conn json table clock i models ds r c).0
          r
          r'
  unfolding update_all all_updated
  update_all-Ran clock i [] ds r r' c h =
      let counts : r ≡ r' = ok-injective h in
      (
        [],
        refl,
        refl,
        omega (arith, ap (λ q. q.matched) counts),
        omega (arith, ap (λ q. q.modified) counts),
      )
  update_all-Ran clock i (model ∷ models) ds r r' c h =
      let (r'', once, e, h') =
        and_then-eq-ok (update_once conn json table (clock i) model ds r c) _ h in
      let s = (update_once conn json table (clock i) model ds r c).0 in
      let (ws, written, replaced, matched, modified) =
        update_once-Ran sql (clock i) model ds r r'' c once in
      let (vs, written', replaced', matched', modified') =
        update_all-Ran clock (suc i) models ds r'' r' s h' in
      (
        ws ++ vs,
        rw (written, written') refl,
        subst (λ t. Replaces json pretty (ws ++ vs) (rows c) (rows t)) (sym (ap (λ p. p.0) e))
            (Replaces-append json pretty ws vs (rows c) (rows s) _ replaced replaced'),
        omega (arith, length-append ws vs, matched, matched'),
        omega (arith, length-append ws vs, modified, modified'),
      )

module _ {F C : Type 0} ⦃go : Go F⦄ {conn : Connection F C} {json : ExtJson F}
    {rows pending : C → Table} {pretty : String → String} (db collection : String)
    (sql : IsSql conn json (physical_table_name db collection) rows pending pretty) where
  -- An Update on TiDB that succeeds, and has neither `$push` nor `$addToSet`, has read the documents
  -- `ds` first, and has then replaced exactly what its updates make of them, each on `ds`: an update
  -- does not see what those in front of it wrote. The counts are the number of replacements.
  pub update_in_tidb-Ran :
      (clock : ℕ → Instant) (models : List (UpdateModel F)) (r : UpdateResult F) (c : C)
      → all leaves_arrays models ≡ true
      → (update_in_tidb conn json clock db collection models c).1 ≡ ok r
      → (ds : List (Doc F)) × ((find_in_tidb conn json db collection
            (by_filter [])
            (create_in_tidb conn json db collection [] c).0).1
          ≡ ok ds)
        × RanAll sql
            (all_updated clock 0 models ds)
            (rows c)
            (update_in_tidb conn json clock db collection models c).0
            no_updates
            r
  unfolding update_in_tidb
  update_in_tidb-Ran clock models r c apart h =
      let (u, made, e, h') = and_then-eq-ok (create_in_tidb conn json db collection [] c) _ h in
      let s = (create_in_tidb conn json db collection [] c).0 in
      let (ds, found, e', h'') =
        and_then-eq-ok (find_in_tidb conn json db collection (by_filter []) s) _ h' in
      let s' = (find_in_tidb conn json db collection (by_filter []) s).0 in
      let still =
        find-unchanged sql c db collection (by_filter []) s
          (create-unchanged sql c db collection [] c refl) in
      let (ws, written, replaced, matched, modified) =
        update_all-Ran sql clock 0 models ds no_updates r s' h'' in
      (
        ds,
        found,
        (
          ws,
          written,
          subst (λ t. Replaces json pretty ws (rows c) (rows t)) (sym (ap (λ p. p.0) (e ∙ e')))
              (subst
                (λ b. Replaces json pretty ws b (
                  rows
                    (update_all conn json (physical_table_name db collection) clock 0 models ds
                      no_updates s').0))
                still replaced),
          matched,
          modified,
        ),
      )
