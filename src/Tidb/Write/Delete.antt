-- ===== src/Tidb/Write/Delete.antt =====
-- internal/backend/tidb/store.go: which rows `Delete` takes out.
use timongo.Prelude.{
  arith, String, ℕ, suc, List, [], ◌∷◌, ◌++◌, if◌then◌else◌, length, ◌≡◌, refl, ◌∙◌, Result, ok,
  ◌>>=◌, Bool-cases, inl, inr, subst, sym, ap, length-append, ok-injective,
}
use timongo.Prelude.Int.{eqb_ℤ, pos}
use timongo.Prelude.Calls.{and_then, and_then-eq-ok, lift, done, ◌>>=◌ as ◌>>=ᶜ◌}
use timongo.Value.{Doc}
use timongo.Go.{Go}
use timongo.Bsonutil.{document_id_key}
use timongo.Bsonutil.ExtJson.{ExtJson}
use timongo.Mql.Match.{matches}
use timongo.Backend.{DeleteModel}
use timongo.Memory.Read.{by_filter}
use timongo.Tidb.Schema.{physical_table_name}
use timongo.Tidb.Connection.{Connection}
use timongo.Tidb.Read.{find_in_tidb}
use timongo.Tidb.Write.{delete_document, delete_documents, delete_all, delete_in_tidb}
use timongo.Tidb.Write.Tables.{Table, Removes, IsSql, find-unchanged}

module _ {F : Type 0} ⦃go : Go F⦄ where
  -- The keys of the documents that a model matches, of the first one alone with a limit of 1.
  unfoldable pub picked : DeleteModel F → List (Doc F) → Result (List String)
  picked model [] = ok []
  picked model (d ∷ ds) =
      let rest = picked model ds in
      if matches d model.filter
      then (document_id_key d >>= λ key.
          if eqb_ℤ model.limit (pos 1) then ok (key ∷ []) else (rest >>= λ keys. ok (key ∷ keys)))
      else rest

  -- The keys of each model, all on the same documents.
  unfoldable pub all_picked : List (DeleteModel F) → List (Doc F) → Result (List String)
  unfolding picked
  all_picked [] ds = ok []
  all_picked (model ∷ models) ds =
      picked model ds >>= λ keys. all_picked models ds >>= λ rest. ok (keys ++ rest)

-- The rows after a DELETE of each of these keys.
abbrev pub RemovesAll : List String → Table → Table → Type 0
RemovesAll [] before after = after ≡ before
RemovesAll (key ∷ keys) before after =
    (mid : Table) × Removes key before mid × RemovesAll keys mid after

RemovesAll-append :
    (xs ys : List String) (before mid after : Table)
    → RemovesAll xs before mid
    → RemovesAll ys mid after
    → RemovesAll (xs ++ ys) before after
RemovesAll-append [] ys before mid after h h' = subst (λ t. RemovesAll ys t after) h h'
RemovesAll-append (x ∷ xs) ys before mid after (t, one, h) h' =
    (t, one, RemovesAll-append xs ys t mid after h h')

module _ {F C : Type 0} ⦃go : Go F⦄ {conn : Connection F C} {json : ExtJson F} {table : List ℕ}
    {rows pending : C → Table} {pretty : String → String}
    (sql : IsSql conn json table rows pending pretty) where
  -- A round that succeeds has taken out exactly the rows of these keys, and counts them.
  abbrev pub Took : Result (List String) → Table → C → ℕ → Type 0
  Took chosen before c n =
      (keys : List String) × (chosen ≡ ok keys)
      × RemovesAll keys before (rows c)
      × (n ≡ length keys)

  delete_document-ok :
      (d : Doc F) (c : C) (u : Unit {0})
      → (delete_document conn json table d c).1 ≡ ok u
      → (key : String) × (document_id_key d ≡ ok key)
        × Removes key (rows c) (rows (delete_document conn json table d c).0)
  unfolding delete_document
  delete_document-ok d c u h =
      let (key, keyed, e, h') = and_then-eq-ok (lift (document_id_key d) c) _ h in
      (
        key,
        keyed,
        subst (λ s. Removes key (rows c) (rows s)) (sym (ap (λ p. p.0) e))
            ((sql.deleted key c).1 h'),
      )

  delete_one :
      (d : Doc F) (c : C) (n : ℕ)
      → (and_then (delete_document conn json table d c) λ _. done {A = ℕ} 1).1 ≡ ok n
      → Took
          (document_id_key d >>= λ key. ok (key ∷ []))
          (rows c)
          (and_then (delete_document conn json table d c) λ _. done {A = ℕ} 1).0
          n
  delete_one d c n h =
      let (u, first, e, h') = and_then-eq-ok (delete_document conn json table d c) _ h in
      let (key, keyed, one) = delete_document-ok d c u first in
      subst (λ s. Took (document_id_key d >>= λ k. ok (k ∷ [])) (rows c) s n)
        (sym (ap (λ p. p.0) e)) (key ∷ [], rw keyed refl, (_, one, refl), ok-injective (sym h'))

  delete_more :
      (model : DeleteModel F) (d : Doc F) (ds : List (Doc F)) (c : C) (n : ℕ)
      → ((s : C) (m : ℕ)
          → (delete_documents conn json table model ds s).1 ≡ ok m
          → Took (picked model ds) (rows s) (delete_documents conn json table model ds s).0 m)
      → (and_then
          (delete_document conn json table d c)
          λ _. delete_documents conn json table model ds >>=ᶜ λ m. done (suc m)).1
        ≡ ok n
      → Took
          (document_id_key d >>= λ key. picked model ds >>= λ keys. ok (key ∷ keys))
          (rows c)
          (and_then
            (delete_document conn json table d c)
            λ _. delete_documents conn json table model ds >>=ᶜ λ m. done (suc m)).0
          n
  delete_more model d ds c n below h =
      let (u, first, e, h') = and_then-eq-ok (delete_document conn json table d c) _ h in
      let s = (delete_document conn json table d c).0 in
      let (m, others, e', h'') =
        and_then-eq-ok (delete_documents conn json table model ds s) _ h' in
      let (key, keyed, one) = delete_document-ok d c u first in
      let (keys, chosen, removed, count) = below s m others in
      subst
        (λ t. Took (document_id_key d >>= λ k. picked model ds >>= λ ks. ok (k ∷ ks)) (rows c) t n)
        (sym (ap (λ p. p.0) (e ∙ e')))
        (
          key ∷ keys,
          rw (keyed, chosen) refl,
          (_, one, removed),
          omega (arith, ok-injective h'', count),
        )

  delete_documents-Took :
      (model : DeleteModel F) (ds : List (Doc F)) (c : C) (n : ℕ)
      → (delete_documents conn json table model ds c).1 ≡ ok n
      → Took (picked model ds) (rows c) (delete_documents conn json table model ds c).0 n
  unfolding delete_documents picked
  delete_documents-Took model [] c n h = ([], refl, refl, ok-injective (sym h))
  delete_documents-Took model (d ∷ ds) c n h = elim (Bool-cases (matches d model.filter)) [
    | inl found ↦ elim (Bool-cases (eqb_ℤ model.limit (pos 1))) [
      | inl single ↦ rw (found, single) (delete_one d c n (rw (found, single) at h))
      | inr many ↦
          rw (found, many)
            (delete_more model d ds c n (λ s m. delete_documents-Took model ds s m)
              (rw (found, many) at h))
    ]
    | inr missed ↦ rw missed (delete_documents-Took model ds c n (rw missed at h))
  ]

  delete_all-Took :
      (models : List (DeleteModel F)) (ds : List (Doc F)) (c : C) (n : ℕ)
      → (delete_all conn json table models ds c).1 ≡ ok n
      → Took (all_picked models ds) (rows c) (delete_all conn json table models ds c).0 n
  unfolding delete_all all_picked
  delete_all-Took [] ds c n h = ([], refl, refl, ok-injective (sym h))
  delete_all-Took (model ∷ models) ds c n h =
      let (k, first, e, h') = and_then-eq-ok (delete_documents conn json table model ds c) _ h in
      let s = (delete_documents conn json table model ds c).0 in
      let (m, others, e', h'') = and_then-eq-ok (delete_all conn json table models ds s) _ h' in
      let (keys, chosen, removed, count) = delete_documents-Took model ds c k first in
      let (keys', chosen', removed', count') = delete_all-Took models ds s m others in
      (
        keys ++ keys',
        rw (chosen, chosen') refl,
        subst (λ t. RemovesAll (keys ++ keys') (rows c) (rows t)) (sym (ap (λ p. p.0) (e ∙ e')))
            (RemovesAll-append keys keys' (rows c) (rows s) _ removed removed'),
        omega (arith, length-append keys keys', ok-injective h'', count, count'),
      )

module _ {F C : Type 0} ⦃go : Go F⦄ {conn : Connection F C} {json : ExtJson F}
    {rows pending : C → Table} {pretty : String → String} (db collection : String)
    (sql : IsSql conn json (physical_table_name db collection) rows pending pretty) where
  -- A Delete on TiDB that succeeds has read the documents `ds` first, and has then taken out exactly
  -- the rows of the keys that its models pick, each on `ds`: one that two models match is counted
  -- twice.
  pub delete_in_tidb-Took :
      (models : List (DeleteModel F)) (n : ℕ) (c : C)
      → (delete_in_tidb conn json db collection models c).1 ≡ ok n
      → (ds : List (Doc F)) × ((find_in_tidb conn json db collection (by_filter []) c).1 ≡ ok ds)
        × Took sql
            (all_picked models ds)
            (rows c)
            (delete_in_tidb conn json db collection models c).0
            n
  unfolding delete_in_tidb
  delete_in_tidb-Took models n c h =
      let (ds, found, e, h') =
        and_then-eq-ok (find_in_tidb conn json db collection (by_filter []) c) _ h in
      let s = (find_in_tidb conn json db collection (by_filter []) c).0 in
      let still = find-unchanged sql c db collection (by_filter []) c refl in
      let (keys, chosen, removed, count) = delete_all-Took sql models ds s n h' in
      (
        ds,
        found,
        (
          keys,
          chosen,
          subst (λ t. RemovesAll keys (rows c) (rows t)) (sym (ap (λ p. p.0) e))
              (subst
                (λ b.
                  RemovesAll keys b
                    (rows (delete_all conn json (physical_table_name db collection) models ds s).0))
                still removed),
          count,
        ),
      )
