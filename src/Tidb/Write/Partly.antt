-- ===== src/Tidb/Write/Partly.antt =====
-- internal/backend/tidb/store.go: what a `Delete` leaves, however it ends.
use text.Mathlib.Text.{◌==◌}
use timongo.Prelude.{
  String, ℕ, true, List, [], ◌∷◌, none, any, ◌≡◌, refl, ◌∙◌, ok, ap, ◌⊎◌, inl, inr, subst,
  Bool-cases, true_or, eq_iff, sym,
}
use timongo.Prelude.Int.{pos, eqb_ℤ}
use timongo.Prelude.Calls.{Keeps, Keeps-seq, Keeps-if, and_then-case, lift, done}
use timongo.Prelude.Dict.{lookup}
use timongo.Value.{Doc}
use timongo.Go.{Go}
use timongo.Bsonutil.{document_id_key}
use timongo.Bsonutil.ExtJson.{ExtJson}
use timongo.Mql.Match.{matches}
use timongo.Backend.{DeleteModel}
use timongo.Memory.Read.{by_filter}
use timongo.Tidb.Schema.{physical_table_name}
use timongo.Tidb.Connection.{Connection}
use timongo.Tidb.Read.{find_in_tidb}
use timongo.Tidb.Write.{delete_document, delete_documents, delete_all, delete_in_tidb}
use timongo.Tidb.Write.Tables.{Table, Removes, IsSql, find-unchanged}

-- Each row is there as it was, or is gone and has a key of which `Gone` holds.
abbrev pub OnlyGone : (String → Type 0) → Table → Table → Type 0
OnlyGone Gone before after =
    (key : String) → (lookup key after ≡ lookup key before) ⊎ ((lookup key after ≡ none) × Gone key)

abbrev pub IsOneOf : {A : Type 0} → A → List A → Type 0
IsOneOf a [] = ⊥
IsOneOf a (b ∷ bs) = (a ≡ b) ⊎ IsOneOf a bs

-- The key of one of the documents, which one of the deletes matches.
abbrev pub IsMatched :
    {F : Type 0} → ⦃go : Go F⦄ → List (DeleteModel F) → List (Doc F) → String → Type 0
IsMatched {F} models ds key =
    (d : Doc F) × IsOneOf d ds
    × (any (λ model. matches d model.filter) models ≡ true)
    × (document_id_key d ≡ ok key)

removed-OnlyGone :
    (Gone : String → Type 0) (key : String) (before mid after : Table)
    → Gone key
    → OnlyGone Gone before mid
    → Removes key mid after
    → OnlyGone Gone before after
removed-OnlyGone Gone key before mid after gone h removes k = elim (Bool-cases (key == k)) [
  | inl same ↦ inr (removes k ∙ rw same refl, subst Gone ((eq_iff key k).0 same) gone)
  | inr other ↦
      let still : lookup k after ≡ lookup k mid = removes k ∙ rw other refl in
      elim (h k) [ inl e ↦ inl (still ∙ e) | inr (e, g) ↦ inr (still ∙ e, g) ]
]

module _ {F C : Type 0} ⦃go : Go F⦄ {conn : Connection F C} {json : ExtJson F} {table : List ℕ}
    {rows pending : C → Table} {pretty : String → String}
    (sql : IsSql conn json table rows pending pretty) (Gone : String → Type 0)
    (before : Table) where
  abbrev Left : C → Type 0
  Left c = OnlyGone Gone before (rows c)

  delete_document-Keeps :
      (d : Doc F)
      → ((key : String) → document_id_key d ≡ ok key → Gone key)
      → Keeps Left (delete_document conn json table d)
  unfolding delete_document
  delete_document-Keeps d gone c left =
      and_then-case (λ out. Left out.0) (lift (document_id_key d) c) _
        (λ key keyed. elim (sql.deleted key c).0 [
          | inl same ↦ subst (OnlyGone Gone before) (sym same) left
          | inr removes ↦ removed-OnlyGone Gone key before (rows c) _ (gone key keyed) left removes
        ])
        (λ e _. left) λ _. left

  delete_documents-Keeps :
      (model : DeleteModel F) (ds : List (Doc F))
      → ((d : Doc F)
          → IsOneOf d ds
          → matches d model.filter ≡ true
          → (key : String) → document_id_key d ≡ ok key
          → Gone key)
      → Keeps Left (delete_documents conn json table model ds)
  unfolding delete_documents
  delete_documents-Keeps model [] gone = λ c left. left
  delete_documents-Keeps model (d ∷ ds) gone =
      let rest = delete_documents-Keeps model ds (λ d' m. gone d' (inr m)) in
      Keeps-if Left (matches d model.filter) _ (delete_documents conn json table model ds)
        (λ found.
          Keeps-seq Left (delete_document conn json table d) _
            (delete_document-Keeps d (gone d (inl refl) found))
            λ u.
              Keeps-if Left (eqb_ℤ model.limit (pos 1)) (done 1) _ (λ _ c left. left)
                (Keeps-seq Left (delete_documents conn json table model ds) _ rest
                  λ n c left. left))
        rest

  delete_all-Keeps :
      (models : List (DeleteModel F)) (ds : List (Doc F))
      → ((key : String) → IsMatched models ds key → Gone key)
      → Keeps Left (delete_all conn json table models ds)
  unfolding delete_all
  delete_all-Keeps [] ds gone = λ c left. left
  delete_all-Keeps (model ∷ models) ds gone =
      Keeps-seq Left (delete_documents conn json table model ds) _
        (delete_documents-Keeps model ds
          λ d m found key keyed. gone key (d, m, rw found refl, keyed))
        λ n.
          Keeps-seq Left (delete_all conn json table models ds) _
            (delete_all-Keeps models ds λ key matched. gone key (
              matched.0,
              matched.1,
              true_or (matches matched.0 model.filter) _ matched.2,
              matched.3,
            ))
            λ m c left. left

module _ {F C : Type 0} ⦃go : Go F⦄ {conn : Connection F C} {json : ExtJson F}
    {rows pending : C → Table} {pretty : String → String} (db collection : String)
    (sql : IsSql conn json (physical_table_name db collection) rows pending pretty) where
  -- However a Delete on TiDB ends, each row is as it was, or it is gone and had the key of one of the
  -- documents that were read first, which one of the deletes matches.
  pub delete_in_tidb-OnlyGone :
      (models : List (DeleteModel F)) (c : C)
      → OnlyGone
          (λ key.
            (ds : List (Doc F)) × ((find_in_tidb conn json db collection (by_filter []) c).1
              ≡ ok ds)
            × IsMatched models ds key)
          (rows c)
          (rows (delete_in_tidb conn json db collection models c).0)
  unfolding delete_in_tidb
  delete_in_tidb-OnlyGone models c =
      let asked = find_in_tidb conn json db collection (by_filter []) c in
      let Gone : String → Type 0 =
        λ key. (ds : List (Doc F)) × (asked.1 ≡ ok ds) × IsMatched models ds key in
      let left : OnlyGone Gone (rows c) (rows asked.0) =
        λ key. inl (ap (lookup key) (find-unchanged sql c db collection (by_filter []) c refl)) in
      and_then-case (λ out. OnlyGone Gone (rows c) (rows out.0)) asked _
        (λ ds found.
          delete_all-Keeps sql Gone (rows c) models ds (λ key matched. (ds, found, matched)) asked.0
            left)
        (λ e _. left) λ _. left
