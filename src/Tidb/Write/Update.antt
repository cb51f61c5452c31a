-- ===== src/Tidb/Write/Update.antt =====
-- internal/backend/tidb/store.go: which documents `Update` writes.
use timongo.Prelude.{
  arith, String, ℕ, suc, List, [], ◌∷◌, ◌++◌, if◌then◌else◌, is_empty, ◌&&◌, length, ◌≡◌, refl, ◌∙◌,
  Result, ok, ◌>>=◌, Bool-cases, inl, inr, subst, sym, ap, ok-injective,
}
use timongo.Prelude.Int.{ℤ}
use timongo.Prelude.Calls.{and_then, and_then-eq-ok, lift, done, ◌>>=◌ as ◌>>=ᶜ◌}
use timongo.Value.{Doc}
use timongo.Go.{Go}
use timongo.Bsonutil.{document_id_key}
use timongo.Bsonutil.ExtJson.{ExtJson, marshal_ext_json}
use timongo.Mql.Match.{matches}
use timongo.Mql.Update.{apply_update}
use timongo.Backend.{UpdateModel}
use timongo.Memory.Update.{Instant}
use timongo.Tidb.Connection.{Connection}
use timongo.Tidb.Write.{replace_document, update_document, update_documents, with_id}
use timongo.Tidb.Write.Tables.{Table, Puts, IsSql}

module _ {F : Type 0} ⦃go : Go F⦄ where
  -- What one update makes of the documents that it matches, of the first one alone if it is not for
  -- many.
  unfoldable pub updated : (ℕ → ℤ) → UpdateModel F → List (Doc F) → Result (List (Doc F))
  updated now model [] = ok []
  updated now model (d ∷ ds) =
      let rest = updated now model ds in
      if matches d model.filter
      then (apply_update (now (length ds)) d model.update >>= λ next.
          if model.multi then (rest >>= λ ws. ok (next ∷ ws)) else ok (next ∷ []))
      else rest

  -- The same, or the document of the upsert where none matches.
  unfoldable pub updated_or_upserted :
      Instant → UpdateModel F → List (Doc F) → Result (List (Doc F))
  updated_or_upserted now model ds = updated now.millis model ds >>= λ ws.
      if is_empty ws && model.upsert
      then (apply_update now.upsert_millis model.filter model.update >>= λ d.
          ok (with_id now d ∷ []))
      else ok ws

  -- The updates of a request, each on the same documents.
  unfoldable pub all_updated :
      (ℕ → Instant) → ℕ → List (UpdateModel F) → List (Doc F) → Result (List (Doc F))
  unfolding updated updated_or_upserted
  all_updated clock i [] ds = ok []
  all_updated clock i (model ∷ models) ds = updated_or_upserted (clock i) model ds >>= λ ws.
      all_updated clock (suc i) models ds >>= λ rest. ok (ws ++ rest)

module _ {F : Type 0} ⦃go : Go F⦄ (json : ExtJson F) (pretty : String → String) where
  abbrev pub ReplacesOne : Doc F → Table → Table → Type 0
  ReplacesOne d before after =
      (key : String) × (raw : String) × (document_id_key d ≡ ok key)
      × (marshal_ext_json json d ≡ ok raw)
      × Puts key (pretty raw) before after

  -- The rows after a REPLACE of each of these documents, in their order.
  abbrev pub Replaces : List (Doc F) → Table → Table → Type 0
  Replaces [] before after = after ≡ before
  Replaces (d ∷ ds) before after = (mid : Table) × ReplacesOne d before mid × Replaces ds mid after

  pub Replaces-append :
      (xs ys : List (Doc F)) (before mid after : Table)
      → Replaces xs before mid
      → Replaces ys mid after
      → Replaces (xs ++ ys) before after
  Replaces-append [] ys before mid after h h' = subst (λ t. Replaces ys t after) h h'
  Replaces-append (x ∷ xs) ys before mid after (t, one, h) h' =
      (t, one, Replaces-append xs ys t mid after h h')

module _ {F C : Type 0} ⦃go : Go F⦄ {conn : Connection F C} {json : ExtJson F} {table : List ℕ}
    {rows pending : C → Table} {pretty : String → String}
    (sql : IsSql conn json table rows pending pretty) where
  pub replace_document-ok :
      (d : Doc F) (c : C) {u : Unit {0}}
      → (replace_document conn json table d c).1 ≡ ok u
      → ReplacesOne json pretty d (rows c) (rows (replace_document conn json table d c).0)
  unfolding replace_document
  replace_document-ok d c h =
      let (key, keyed, e, h') = and_then-eq-ok (lift (document_id_key d) c) _ h in
      let (raw, stored, e', h'') = and_then-eq-ok (lift (marshal_ext_json json d) c) _ h' in
      (
        key,
        raw,
        keyed,
        stored,
        subst (λ s. Puts key (pretty raw) (rows c) (rows s)) (sym (ap (λ p. p.0) (e ∙ e')))
            ((sql.replaced key raw c).1 h''),
      )

  update_document-ok :
      (now : ℤ) (model : UpdateModel F) (d : Doc F) (c : C) {u : Unit {0}}
      → (update_document conn json table now model d c).1 ≡ ok u
      → (next : Doc F) × (apply_update now d model.update ≡ ok next)
        × ReplacesOne json pretty next
            (rows c)
            (rows (update_document conn json table now model d c).0)
  unfolding update_document
  update_document-ok now model d c h =
      let (next, made, e, h') = and_then-eq-ok (lift (apply_update now d model.update) c) _ h in
      (
        next,
        made,
        subst (λ s. ReplacesOne json pretty next (rows c) (rows s)) (sym (ap (λ p. p.0) e))
            (replace_document-ok next c h'),
      )

  -- A round that succeeds has replaced exactly these documents.
  abbrev pub Ran : Result (List (Doc F)) → Table → C → ℕ → Type 0
  Ran written before c n =
      (ws : List (Doc F)) × (written ≡ ok ws)
      × Replaces json pretty ws before (rows c)
      × (n ≡ length ws)

  -- The first document that matches, of an update for one.
  update_one :
      (now : ℤ) (model : UpdateModel F) (d : Doc F) (c : C) (n : ℕ)
      → (and_then (update_document conn json table now model d c) λ _. done {A = ℕ} 1).1 ≡ ok n
      → Ran
          (apply_update now d model.update >>= λ next. ok (next ∷ []))
          (rows c)
          (and_then (update_document conn json table now model d c) λ _. done {A = ℕ} 1).0
          n
  update_one now model d c n h =
      let (u, first, e, h') = and_then-eq-ok (update_document conn json table now model d c) _ h in
      let (next, made, one) = update_document-ok now model d c first in
      subst (λ s. Ran (apply_update now d model.update >>= λ w. ok (w ∷ [])) (rows c) s n)
        (sym (ap (λ p. p.0) e)) (next ∷ [], rw made refl, (_, one, refl), ok-injective (sym h'))

  -- A document that matches, and then the others, of an update for many.
  update_more :
      (now : ℕ → ℤ) (model : UpdateModel F) (d : Doc F) (ds : List (Doc F)) (c : C) (n : ℕ)
      → ((s : C) (m : ℕ)
          → (update_documents conn json table now model ds s).1 ≡ ok m
          → Ran
              (updated now model ds)
              (rows s)
              (update_documents conn json table now model ds s).0
              m)
      → (and_then
          (update_document conn json table (now (length ds)) model d c)
          λ _. update_documents conn json table now model ds >>=ᶜ λ m. done (suc m)).1
        ≡ ok n
      → Ran
          (apply_update (now (length ds)) d model.update >>= λ next.
            updated now model ds >>= λ ws. ok (next ∷ ws))
          (rows c)
          (and_then
            (update_document conn json table (now (length ds)) model d c)
            λ _. update_documents conn json table now model ds >>=ᶜ λ m. done (suc m)).0
          n
  update_more now model d ds c n below h =
      let (u, first, e, h') =
        and_then-eq-ok (update_document conn json table (now (length ds)) model d c) _ h in
      let s = (update_document conn json table (now (length ds)) model d c).0 in
      let (m, others, e', h'') =
        and_then-eq-ok (update_documents conn json table now model ds s) _ h' in
      let (next, made, one) = update_document-ok (now (length ds)) model d c first in
      let (ws, written, replaced, count) = below s m others in
      subst
        (λ t.
          Ran
            (apply_update (now (length ds)) d model.update >>= λ w.
              updated now model ds >>= λ v. ok (w ∷ v))
            (rows c) t n)
        (sym (ap (λ p. p.0) (e ∙ e')))
        (
          next ∷ ws,
          rw (made, written) refl,
          (_, one, replaced),
          omega (arith, ok-injective h'', count),
        )

  pub update_documents-Ran :
      (now : ℕ → ℤ) (model : UpdateModel F) (ds : List (Doc F)) (c : C) (n : ℕ)
      → (update_documents conn json table now model ds c).1 ≡ ok n
      → Ran (updated now model ds) (rows c) (update_documents conn json table now model ds c).0 n
  unfolding update_documents updated
  update_documents-Ran now model [] c n h = ([], refl, refl, ok-injective (sym h))
  update_documents-Ran now model (d ∷ ds) c n h = elim (Bool-cases (matches d model.filter)) [
    | inl found ↦ elim (Bool-cases model.multi) [
      | inl many ↦
          rw (found, many)
            (update_more now model d ds c n (λ s m. update_documents-Ran now model ds s m)
              (rw (found, many) at h))
      | inr single ↦
          rw (found, single) (update_one (now (length ds)) model d c n (rw (found, single) at h))
    ]
    | inr missed ↦ rw missed (update_documents-Ran now model ds c n (rw missed at h))
  ]
