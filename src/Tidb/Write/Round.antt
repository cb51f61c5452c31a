-- ===== src/Tidb/Write/Round.antt =====
-- internal/backend/tidb/store.go: one round of `Update`.
use timongo.Prelude.{
  arith, String, ℕ, suc, ◌+◌, Bool, true, false, List, [], ◌∷◌, if◌then◌else◌, is_empty, eqb, ◌&&◌,
  length, ◌≡◌, refl, ◌∙◌, Result, ok, ◌>>=◌, subst, sym, ap, ok-injective,
}
use timongo.Prelude.Calls.{Call, and_then-eq-ok, lift, done}
use timongo.Value.{Doc}
use timongo.Go.{Go}
use timongo.Bsonutil.ExtJson.{ExtJson}
use timongo.Mql.Update.{apply_update}
use timongo.Backend.{UpdateModel, UpdateResult}
use timongo.Memory.Update.{Instant, add_matched, add_upserted}
use timongo.Tidb.Connection.{Connection}
use timongo.Tidb.Write.{replace_document, update_documents, upsert_document, update_once, with_id}
use timongo.Tidb.Write.Tables.{Table, IsSql}
use timongo.Tidb.Write.Update.{
  updated_or_upserted, Replaces, replace_document-ok, update_documents-Ran,
}

not_zero : (n : ℕ) → eqb (suc n) 0 ≡ false
not_zero n = ground arith

module _ {F C : Type 0} ⦃go : Go F⦄ {conn : Connection F C} {json : ExtJson F} {table : List ℕ}
    {rows pending : C → Table} {pretty : String → String}
    (sql : IsSql conn json table rows pending pretty) where
  -- The same for what the result counts.
  abbrev pub RanAll : Result (List (Doc F)) → Table → C → UpdateResult F → UpdateResult F → Type 0
  RanAll written before c r r' =
      (ws : List (Doc F)) × (written ≡ ok ws)
      × Replaces json pretty ws before (rows c)
      × (r'.matched ≡ r.matched + length ws)
      × (r'.modified ≡ r.modified + length ws)

  upsert_document-Ran :
      (now : Instant) (model : UpdateModel F) (r r' : UpdateResult F) (c : C)
      → (upsert_document conn json table now model r c).1 ≡ ok r'
      → RanAll
          (apply_update now.upsert_millis model.filter model.update >>= λ d.
            ok (with_id now d ∷ []))
          (rows c)
          (upsert_document conn json table now model r c).0
          r
          r'
  unfolding upsert_document
  upsert_document-Ran now model r r' c h =
      let (d, made, e, h') =
        and_then-eq-ok (lift (apply_update now.upsert_millis model.filter model.update) c) _ h in
      let (u, stored, e', h'') =
        and_then-eq-ok (replace_document conn json table (with_id now d) c) _ h' in
      let same : add_upserted (with_id now d) r ≡ r' = ok-injective h'' in
      subst
        (λ t.
          RanAll
            (apply_update now.upsert_millis model.filter model.update >>= λ w.
              ok (with_id now w ∷ []))
            (rows c) t r r')
        (sym (ap (λ p. p.0) (e ∙ e')))
        (
          with_id now d ∷ [],
          rw made refl,
          (_, replace_document-ok sql (with_id now d) c stored, refl),
          sym (ap (λ q. q.matched) same),
          sym (ap (λ q. q.modified) same),
        )

  -- The end of a round, by how many documents matched.
  abbrev finish : Instant → UpdateModel F → UpdateResult F → ℕ → Call C (UpdateResult F)
  finish now model r n =
      if eqb n 0 && model.upsert
      then upsert_document conn json table now model r
      else done (add_matched n r)

  abbrev finished : Instant → UpdateModel F → List (Doc F) → Result (List (Doc F))
  finished now model ws =
      if is_empty ws && model.upsert
      then (apply_update now.upsert_millis model.filter model.update >>= λ d.
          ok (with_id now d ∷ []))
      else ok ws

  finish_empty :
      (creates : Bool) (now : Instant) (model : UpdateModel F) (r r' : UpdateResult F)
      (before : Table) (c : C)
      → rows c ≡ before
      → ((if creates then upsert_document conn json table now model r else done (add_matched 0 r))
          c).1
        ≡ ok r'
      → RanAll
          (if creates
            then (apply_update now.upsert_millis model.filter model.update >>= λ d.
                ok (with_id now d ∷ []))
            else ok [])
          before
          ((if creates then upsert_document conn json table now model r else done (add_matched 0 r))
            c).0
          r
          r'
  finish_empty true now model r r' before c same h =
      subst
        (λ t.
          RanAll
            (apply_update now.upsert_millis model.filter model.update >>= λ d.
              ok (with_id now d ∷ []))
            t (upsert_document conn json table now model r c).0 r r')
        same (upsert_document-Ran now model r r' c h)
  finish_empty false now model r r' before c same h =
      let counts : add_matched 0 r ≡ r' = ok-injective h in
      ([], refl, same, sym (ap (λ q. q.matched) counts), sym (ap (λ q. q.modified) counts))

  finish-Ran :
      (now : Instant) (model : UpdateModel F) (r r' : UpdateResult F) (before : Table) (c : C)
      (ws : List (Doc F))
      → Replaces json pretty ws before (rows c)
      → (finish now model r (length ws) c).1 ≡ ok r'
      → RanAll (finished now model ws) before (finish now model r (length ws) c).0 r r'
  finish-Ran now model r r' before c [] replaced h =
      finish_empty model.upsert now model r r' before c replaced h
  finish-Ran now model r r' before c (w ∷ ws) replaced h =
      let counts : add_matched (length (w ∷ ws)) r ≡ r' =
        ok-injective (rw (not_zero (length ws)) at h) in
      rw (not_zero (length ws)) (
        w ∷ ws,
        refl,
        replaced,
        sym (ap (λ q. q.matched) counts),
        sym (ap (λ q. q.modified) counts),
      )

  pub update_once-Ran :
      (now : Instant) (model : UpdateModel F) (ds : List (Doc F)) (r r' : UpdateResult F) (c : C)
      → (update_once conn json table now model ds r c).1 ≡ ok r'
      → RanAll
          (updated_or_upserted now model ds)
          (rows c)
          (update_once conn json table now model ds r c).0
          r
          r'
  unfolding update_once updated_or_upserted
  update_once-Ran now model ds r r' c h =
      let (n, ran, e, h') =
        and_then-eq-ok (update_documents conn json table now.millis model ds c) _ h in
      let s = (update_documents conn json table now.millis model ds c).0 in
      let (ws, written, replaced, count) = update_documents-Ran sql now.millis model ds c n ran in
      let (ws', written', replaced', matched, modified) =
        finish-Ran now model r r' (rows c) s ws replaced
          (subst (λ m. (finish now model r m s).1 ≡ ok r') count h') in
      (
        ws',
        rw written written',
        subst (λ t. Replaces json pretty ws' (rows c) (rows t))
            (sym (ap (λ p. p.0) e ∙ ap (λ m. (finish now model r m s).0) count)) replaced',
        matched,
        modified,
      )
