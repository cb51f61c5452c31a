-- ===== src/Handler/Rename.antt =====
-- internal/handler/handler.go: `renameCollection` on the store in memory.
use text.Mathlib.Text.{◌==◌}
use timongo.Prelude.{
  arith, String, ℕ, Bool, true, false, List, [], ◌∷◌, none, if◌then◌else◌, ◌≡◌, refl, ◌∙◌, ok,
  eq_iff, eq_refl, ◌⊎◌,
}
use timongo.Prelude.Calls.{and_then-ok, done}
use timongo.Prelude.Dict.{Dict, lookup, lookup-insert}
use timongo.Value.{null, Doc, truthy}
use timongo.Go.{Go}
use timongo.Mql.Schema.{text_or_empty}
use timongo.Mql.Update.Operators.{get}
use timongo.Memory.Store.{Store, namespace, documents, create_collection, drop_collection}
use timongo.Memory.Store.Laws.{documents-create_collection, documents-drop_collection}
use timongo.Memory.Insert.{insert_many, validator_of}
use timongo.Memory.Insert.Laws.{documents-insert_many}
use timongo.Memory.Insert.Copy.{values, insert_many-values}
use timongo.Memory.Keys.{IsKeyed}
use timongo.Memory.Read.Laws.{matching-empty, find-by_filter}
use timongo.Memory.Update.{Instant}
use timongo.Memory.Served.{memory_store}
use timongo.Memory.Refines.{view}
use timongo.Handler.Arguments.{required_string, split_namespace}
use timongo.Handler.Replies.{ok_reply}
use timongo.Handler.Commands.{rename_collection, move_collection, drop_target, insert_copied}

module _ {F : Type 0} ⦃go : Go F⦄ (clock : ℕ → ℕ → Instant) where
  -- A new collection has no validator.
  validator-create_collection :
      (db coll : String) (s : Store F)
      → validator_of (namespace db coll) (create_collection db coll [] s) ≡ null
  unfolding create_collection lookup
  validator-create_collection db coll s = ground (
    arith,
    lookup-insert (namespace db coll) (namespace db coll) [] s.options,
    eq_iff (namespace db coll) (namespace db coll),
  )

  insert_copied-stored :
      (db coll : String) (d : Doc F) (ds : List (Doc F)) (s : Store F) (i n : ℕ)
      → (insert_many db coll (d ∷ ds) s).1 ≡ ok n
      → insert_copied (memory_store clock) db coll (d ∷ ds) (s, i)
        ≡ (((insert_many db coll (d ∷ ds) s).0, i), ok tt)
  insert_copied-stored db coll d ds s i n stored =
      let (s', r) = insert_many db coll (d ∷ ds) s in
      and_then-ok ((s', i), r) (λ _. done tt) n stored

  -- The copy of a collection into an empty one.
  copied : String → String → Dict (Doc F) → Store F → Store F
  copied db coll [] s = s
  copied db coll (e ∷ c) s = (insert_many db coll (values (e ∷ c)) s).0

  insert_copied-values :
      (db coll : String) (c : Dict (Doc F)) (s : Store F) (i : ℕ)
      → IsKeyed c
      → documents (namespace db coll) s ≡ []
      → validator_of (namespace db coll) s ≡ null
      → (insert_copied (memory_store clock) db coll (values c) (s, i)
          ≡ ((copied db coll c s, i), ok tt))
        × ((ns key : String)
            → view (copied db coll c s) ns key
              ≡ (if namespace db coll == ns then lookup key c else view s ns key))
  unfolding copied
  insert_copied-values db coll [] s i h bare open_ =
      (refl, λ ns key. ground (arith, bare, eq_iff (namespace db coll) ns))
  insert_copied-values db coll ((k, d) ∷ c) s i h bare open_ =
      let (stored, same) = insert_many-values db coll ((k, d) ∷ c) s h bare open_ in
      (
        insert_copied-stored db coll d (values c) s i _ stored,
        λ ns key. ground (
          arith,
          same key,
          documents-insert_many db coll (values ((k, d) ∷ c)) s ns,
          eq_iff (namespace db coll) ns,
        ),
      )

  dropped : Bool → String → String → Store F → Store F
  dropped true db coll s = drop_collection db coll s
  dropped false db coll s = s

  drop_target-dropped :
      (replace : Bool) (db coll : String) (s : Store F) (i : ℕ)
      → drop_target (memory_store clock) replace db coll (s, i)
        ≡ ((dropped replace db coll s, i), ok tt)
  unfolding dropped
  drop_target-dropped true db coll s i = refl
  drop_target-dropped false db coll s i = refl

  documents-dropped :
      (replace : Bool) (db coll : String) (s : Store F) (ns : String)
      → (replace ≡ true) ⊎ (documents (namespace db coll) s ≡ [])
      → documents ns (dropped replace db coll s)
        ≡ (if namespace db coll == ns then [] else documents ns s)
  unfolding dropped
  documents-dropped true db coll s ns h = documents-drop_collection db coll ns s
  documents-dropped false db coll s ns h = ground (arith, h, eq_iff (namespace db coll) ns)

  -- The documents of the store after the steps of a rename.
  module _ (replace : Bool) (db coll to_db to_coll : String) (s : Store F) (i : ℕ) where
    abbrev source : String
    source = namespace db coll

    abbrev target : String
    target = namespace to_db to_coll

    abbrev made : Store F
    made = create_collection to_db to_coll [] (dropped replace to_db to_coll s)

    abbrev filled : Store F
    filled = copied to_db to_coll (documents source s) made

    made-bare : (replace ≡ true) ⊎ (documents target s ≡ []) → documents target made ≡ []
    made-bare free =
        documents-create_collection to_db to_coll target [] (dropped replace to_db to_coll s)
        ∙ documents-dropped replace to_db to_coll s target free
        ∙ rw (eq_refl target) refl

    move_collection-steps :
        IsKeyed (documents source s)
        → (replace ≡ true) ⊎ (documents target s ≡ [])
        → move_collection (memory_store clock) replace (db, coll) (to_db, to_coll) (s, i)
          ≡ ((drop_collection db coll filled, i), ok (ok_reply []))
    move_collection-steps keyed free =
        rw
          (
            find-by_filter db coll [] s,
            matching-empty (values (documents source s)),
            drop_target-dropped replace to_db to_coll s i,
            (insert_copied-values to_db to_coll (documents source s) made i keyed (made-bare free)
                (validator-create_collection to_db to_coll (dropped replace to_db to_coll s))).0,
          )
          refl

    view-moved :
        IsKeyed (documents source s)
        → (replace ≡ true) ⊎ (documents target s ≡ [])
        → (ns key : String)
        → view (drop_collection db coll filled) ns key ≡ (
            if source == ns
            then none
            else if target == ns
            then view s source key
            else view s ns key)
    unfolding lookup
    view-moved keyed free ns key =
        let new = dropped replace to_db to_coll s in
        let (_, now) =
          insert_copied-values to_db to_coll (documents source s) made i keyed (made-bare free)
            (validator-create_collection to_db to_coll new) in
        ground (
          arith,
          documents-drop_collection db coll ns filled,
          now ns key,
          documents-create_collection to_db to_coll ns [] new,
          documents-dropped replace to_db to_coll s ns free,
        )

module _ {F : Type 0} ⦃go : Go F⦄ (cmd : Doc F) (ns to_ns : String) where
  abbrev pub source_name : String × String
  source_name = split_namespace ns (text_or_empty (get "$db" cmd))

  abbrev pub target_name : String × String
  target_name = split_namespace to_ns source_name.0

  abbrev pub source_ns : String
  source_ns = namespace source_name.0 source_name.1

  abbrev pub target_ns : String
  target_ns = namespace target_name.0 target_name.1

  -- A rename of a collection whose documents stand under the keys of their `_id`, onto a collection
  -- that has no document or is to be dropped, succeeds. Then the source has no documents, the
  -- target, where it is another collection, has the documents of the source under their keys, and
  -- no other collection has changed. A rename onto itself with `dropTarget` leaves no documents.
  pub rename_collection-moves :
      (clock : ℕ → ℕ → Instant) (s : Store F) (i : ℕ)
      → required_string cmd "to" ≡ ok to_ns
      → IsKeyed (documents source_ns s)
      → (truthy (get "dropTarget" cmd) ≡ true) ⊎ (documents target_ns s ≡ [])
      → let r = rename_collection (memory_store clock) cmd ns (s, i) in
        (r.1 ≡ ok (ok_reply []))
        × ((ns' key : String)
            → view r.0.0 ns' key ≡ (
                if source_ns == ns'
                then none
                else if target_ns == ns'
                then view s source_ns key
                else view s ns' key))
  unfolding rename_collection
  rename_collection-moves clock s i e keyed free =
      let replace = truthy (get "dropTarget" cmd) in
      let steps =
        move_collection-steps clock replace source_name.0 source_name.1 target_name.0 target_name.1
          s i keyed free in
      rw (e, steps)
        (
          refl,
          view-moved clock replace source_name.0 source_name.1 target_name.0 target_name.1 s i keyed
              free,
        )
