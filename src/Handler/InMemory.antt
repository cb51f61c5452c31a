-- ===== src/Handler/InMemory.antt =====
-- internal/handler/handler.go over internal/backend/memory/memory.go: what commands do to the store
-- in memory.
use timongo.Prelude.{ℕ, Bool, true, false, List, [], ◌∷◌, refl}
use timongo.Prelude.Dict.{lookup}
use timongo.Value.{Doc, Value}
use timongo.Go.{Go}
use timongo.Backend.Calls.{StoreCall, perform}
use timongo.Memory.Store.{new_store}
use timongo.Memory.Update.{Instant}
use timongo.Memory.Served.{MemoryState, memory_store}
use timongo.Memory.Indexed.{IsIndexed, perform-IsIndexed}
use timongo.Handler.{OnCollection, Branch, handle}
use timongo.Handler.Calls.Laws.{handle-keeps}

-- The commands that only read.
abbrev pub is_read : Branch → Bool
is_read (Branch.fixed _) = true
is_read (Branch.collection OnCollection.find) = true
is_read (Branch.collection OnCollection.count) = true
is_read (Branch.collection OnCollection.distinct) = true
is_read (Branch.collection OnCollection.aggregate) = true
is_read (Branch.collection OnCollection.list_indexes) = true
is_read Branch.list_collections = true
is_read _ = false

module _ {F : Type 0} ⦃go : Go F⦄ (clock : ℕ → ℕ → Instant) where
  -- Commands one after the other, on one connection or many.
  unfoldable pub serve : List (Doc F) → MemoryState F → MemoryState F
  serve [] s = s
  serve (cmd ∷ cmds) s = serve cmds (handle (memory_store clock) cmd s).0

  -- What every call of the store keeps, every command keeps.
  serve-keeps :
      (Inv : MemoryState F → Type 0)
      → ((call : StoreCall F) (s : MemoryState F)
          → Inv s
          → Inv (perform (memory_store clock) call s))
      → (cmds : List (Doc F)) (s : MemoryState F) → Inv s
      → Inv (serve cmds s)
  unfolding serve
  serve-keeps Inv keeps [] s h = h
  serve-keeps Inv keeps (cmd ∷ cmds) s h =
      serve-keeps Inv keeps cmds (handle (memory_store clock) cmd s).0
        (handle-keeps (memory_store clock) cmd Inv s (λ _ _ _ call s' _. keeps call s') h)

  -- Whatever commands are run on an empty store, and whether they succeed or fail, the first index
  -- of every collection that is there is `_id_`, and a namespace without a collection has no index.
  pub serve-IsIndexed : (cmds : List (Doc F)) → IsIndexed (serve cmds (new_store, 0)).0
  serve-IsIndexed cmds =
      serve-keeps (λ s. IsIndexed s.0) (perform-IsIndexed clock) cmds (new_store, 0)
        λ ns. unfold new_store lookup in refl
