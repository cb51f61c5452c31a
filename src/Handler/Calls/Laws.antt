-- ===== src/Handler/Calls/Laws.antt =====
-- internal/handler/handler.go: what `Handle` does with any store, by what its commands ensure.
use text.Mathlib.Text.{◌==◌}
use timongo.Prelude.{
  ap, arith, [], ◌∷◌, sym, String, Bool, true, false, List, all, ◌≡◌, refl, some, Result, ok, err,
  panic, if◌then◌else◌, subst,
}
use timongo.Prelude.Calls.{Call, ◌>>=◌, lift}
use timongo.Prelude.Int.{pos}
use timongo.Prelude.Dict.{lookup}
use timongo.Prelude.Text.{◌+++◌}
use timongo.Value.{Doc, Value, float64}
use timongo.Go.{Go}
use timongo.Mql.Schema.{text_or_empty}
use timongo.Mql.Update.Operators.{get}
use timongo.Backend.{BackendStore}
use timongo.Mongoerrors.{new, code_command_not_found}
use timongo.Command.{command_name}
use timongo.Handler.{
  OnCollection, Branch, branch, on_collection, run_on_collection, run_branch, handle,
}
use timongo.Handler.Arguments.{bad_value}
use timongo.Handler.Replies.{Fixed, fixed_reply, fixed_command}
use timongo.Backend.Calls.{StoreCall, perform, perform_all}
use timongo.Handler.Calls.{permits, permits_branch}
use timongo.Handler.Calls.Rules.{AfterOk, Ensures, Ensures-done, Ensures-err}
use timongo.Handler.Calls.Commands.{
  HasOk, has_ok, find_command-Ensures, count_command-Ensures, distinct_command-Ensures,
  aggregate_command-Ensures, list_indexes_command-Ensures, insert_command-Ensures,
  update_command-Ensures, delete_command-Ensures, create_collection_command-Ensures,
  drop_collection_command-Ensures, create_indexes_command-Ensures,
}
use timongo.Handler.Calls.Compound.{
  find_and_modify-Ensures, rename_collection-Ensures, list_collections-Ensures,
  drop_database-Ensures,
}

module _ {F S : Type 0} ⦃go : Go F⦄ (store : BackendStore F S) (cmd : Doc F) where
  abbrev db : String
  db = text_or_empty (get "$db" cmd)

  abbrev to : String
  to = text_or_empty (get "to" cmd)

  fixed_reply-ok : (f : Fixed) (value : Value F) → HasOk (fixed_reply f cmd value)
  unfolding fixed_reply
  fixed_reply-ok Fixed.hello value = has_ok _
  fixed_reply-ok Fixed.ping value = has_ok _
  fixed_reply-ok Fixed.build_info value = has_ok _
  fixed_reply-ok Fixed.server_status value = has_ok _
  fixed_reply-ok Fixed.connection_status value = has_ok _
  fixed_reply-ok Fixed.db_stats value = has_ok _
  fixed_reply-ok Fixed.coll_stats value = has_ok _
  fixed_reply-ok Fixed.host_info value = has_ok _
  fixed_reply-ok Fixed.get_cmd_line_opts value = has_ok _
  fixed_reply-ok Fixed.get_parameter value = has_ok _
  fixed_reply-ok Fixed.current_op value = has_ok _
  fixed_reply-ok Fixed.top value = has_ok _
  fixed_reply-ok Fixed.profile value = has_ok _
  fixed_reply-ok Fixed.list_commands value = has_ok _
  fixed_reply-ok Fixed.users_info value = has_ok _
  fixed_reply-ok Fixed.roles_info value = has_ok _
  fixed_reply-ok Fixed.get_default_rw_concern value = has_ok _
  fixed_reply-ok Fixed.validate value = has_ok _
  fixed_reply-ok Fixed.plan_cache_clear value = has_ok _
  fixed_reply-ok Fixed.explain value = has_ok _
  fixed_reply-ok Fixed.coll_mod value = has_ok _
  fixed_reply-ok Fixed.list_databases value = has_ok _

  guarded-Ensures :
      (P : StoreCall F → Bool) (test : Bool) (m : Call S (Doc F)) (message : String)
      → Ensures store P HasOk m
      → Ensures store P HasOk (if test then lift (err (bad_value message)) else m)
  guarded-Ensures P true m message h = Ensures-err store P (HasOk {F = F}) (bad_value message)
  guarded-Ensures P false m message h = h

  run_on_collection-Ensures :
      (c : OnCollection) (value : Value F)
      → Ensures store
          (permits c db (text_or_empty value))
          HasOk
          (run_on_collection store c cmd value)
  unfolding run_on_collection
  run_on_collection-Ensures OnCollection.create value =
      guarded-Ensures (permits OnCollection.create db (text_or_empty value))
        (text_or_empty value == "") _ _
        (create_collection_command-Ensures store cmd (text_or_empty value))
  run_on_collection-Ensures OnCollection.drop value =
      guarded-Ensures (permits OnCollection.drop db (text_or_empty value))
        (text_or_empty value == "") _ _
        (drop_collection_command-Ensures store cmd (text_or_empty value))
  run_on_collection-Ensures OnCollection.create_indexes value =
      guarded-Ensures (permits OnCollection.create_indexes db (text_or_empty value))
        (text_or_empty value == "") _ _
        (create_indexes_command-Ensures store cmd (text_or_empty value))
  run_on_collection-Ensures OnCollection.list_indexes value =
      guarded-Ensures (permits OnCollection.list_indexes db (text_or_empty value))
        (text_or_empty value == "") _ _
        (list_indexes_command-Ensures store cmd (text_or_empty value))
  run_on_collection-Ensures OnCollection.drop_indexes value =
      guarded-Ensures (permits OnCollection.drop_indexes db (text_or_empty value))
        (text_or_empty value == "") _ _
        (Ensures-done store (permits OnCollection.drop_indexes db (text_or_empty value)) HasOk _
          (has_ok _))
  run_on_collection-Ensures OnCollection.insert value =
      guarded-Ensures (permits OnCollection.insert db (text_or_empty value))
        (text_or_empty value == "") _ _ (insert_command-Ensures store cmd (text_or_empty value))
  run_on_collection-Ensures OnCollection.find value =
      guarded-Ensures (permits OnCollection.find db (text_or_empty value))
        (text_or_empty value == "") _ _ (find_command-Ensures store cmd (text_or_empty value))
  run_on_collection-Ensures OnCollection.count value =
      guarded-Ensures (permits OnCollection.count db (text_or_empty value))
        (text_or_empty value == "") _ _ (count_command-Ensures store cmd (text_or_empty value))
  run_on_collection-Ensures OnCollection.distinct value =
      guarded-Ensures (permits OnCollection.distinct db (text_or_empty value))
        (text_or_empty value == "") _ _ (distinct_command-Ensures store cmd (text_or_empty value))
  run_on_collection-Ensures OnCollection.find_and_modify_one value =
      guarded-Ensures (permits OnCollection.find_and_modify_one db (text_or_empty value))
        (text_or_empty value == "") _ _ (find_and_modify-Ensures store cmd (text_or_empty value))
  run_on_collection-Ensures OnCollection.update value =
      guarded-Ensures (permits OnCollection.update db (text_or_empty value))
        (text_or_empty value == "") _ _ (update_command-Ensures store cmd (text_or_empty value))
  run_on_collection-Ensures OnCollection.delete value =
      guarded-Ensures (permits OnCollection.delete db (text_or_empty value))
        (text_or_empty value == "") _ _ (delete_command-Ensures store cmd (text_or_empty value))
  run_on_collection-Ensures OnCollection.aggregate value =
      guarded-Ensures (permits OnCollection.aggregate db (text_or_empty value))
        (text_or_empty value == "") _ _ (aggregate_command-Ensures store cmd (text_or_empty value))

  run_branch-Ensures :
      (b : Branch) (name : String) (value : Value F)
      → Ensures store
          (permits_branch b db (text_or_empty value) to)
          HasOk
          (run_branch store b name value cmd)
  unfolding run_branch
  run_branch-Ensures (Branch.fixed f) name value =
      Ensures-done store (permits_branch (Branch.fixed f) db (text_or_empty value) to) HasOk _
        (fixed_reply-ok f value)
  run_branch-Ensures (Branch.collection c) name value = run_on_collection-Ensures c value
  run_branch-Ensures Branch.list_collections name value =
      list_collections-Ensures store cmd (text_or_empty value)
  run_branch-Ensures Branch.drop_database name value =
      drop_database-Ensures store cmd (text_or_empty value)
  run_branch-Ensures Branch.rename name value =
      rename_collection-Ensures store cmd (text_or_empty value)
  run_branch-Ensures Branch.unknown name value =
      Ensures-err store (permits_branch Branch.unknown db (text_or_empty value) to) (HasOk {F = F})
        (new code_command_not_found "CommandNotFound" ("no such command: " +++ name))

  -- The state after a command is the state after some calls of the store, each an operation that
  -- the command is for, on the database of `$db` and the collection that the command names; those of
  -- a rename are on the namespace that it names and on its target.
  pub handle-calls :
      (s : S) (name : String) (value : Value F)
      → command_name cmd ≡ ok (name, value)
      → (calls : List (StoreCall F)) × (all
            (permits_branch (branch name) db (text_or_empty value) to)
            calls
          ≡ true)
        × ((handle store cmd s).0 ≡ perform_all store calls s)
  unfolding handle
  handle-calls s name value e = rw e (
      let (calls, allowed, state, _) = run_branch-Ensures (branch name) name value s in
      (calls, allowed, state))

  -- Calls that `P` permits keep what each call that `P` permits keeps.
  pub perform_all-keeps :
      (P : StoreCall F → Bool) (Inv : S → Type 0)
      → ((call : StoreCall F) (s : S) → P call ≡ true → Inv s → Inv (perform store call s))
      → (calls : List (StoreCall F)) (s : S) → all P calls ≡ true
      → Inv s
      → Inv (perform_all store calls s)
  perform_all-keeps P Inv keeps [] s allowed h = h
  perform_all-keeps P Inv keeps (c ∷ cs) s allowed h =
      perform_all-keeps P Inv keeps cs (perform store c s) (ground arith)
        (keeps c s (ground arith) h)

  -- A command keeps what each call keeps that it may make.
  pub handle-keeps :
      (Inv : S → Type 0) (s : S)
      → ((name : String) (value : Value F)
          → command_name cmd ≡ ok (name, value)
          → (call : StoreCall F) (s' : S)
          → permits_branch (branch name) db (text_or_empty value) to call ≡ true
          → Inv s'
          → Inv (perform store call s'))
      → Inv s
      → Inv (handle store cmd s).0
  unfolding handle
  handle-keeps Inv s keeps h = by_name (command_name cmd) refl
    where
      by_name :
          (named : Result (String × Value F))
          → command_name cmd ≡ named
          → Inv (handle store cmd s).0
      by_name (ok (name, value)) e =
          let (calls, allowed, state) = handle-calls s name value e in
          subst Inv (sym state) (
            perform_all-keeps (permits_branch (branch name) db (text_or_empty value) to) Inv
              (keeps name value e) calls s allowed h)
      by_name (err x) e = rw e h
      by_name panic e = rw e h

  dispatched-ok :
      (named : Result (String × Value F)) (s : S)
      → AfterOk HasOk ((lift named >>= λ p. run_branch store (branch p.0) p.0 p.1 cmd) s).1
  dispatched-ok (ok (name, value)) s = (run_branch-Ensures (branch name) name value s).3
  dispatched-ok (err e) s = tt
  dispatched-ok panic s = tt

  -- A command that succeeds, whichever it is and whatever the store does, replies `ok: 1`.
  pub handle-ok_field :
      (s : S) (reply : Doc F)
      → (handle store cmd s).1 ≡ ok reply
      → lookup "ok" reply ≡ some (float64 (go.of_int (pos 1)))
  unfolding handle
  handle-ok_field s reply e = subst (AfterOk HasOk) e (dispatched-ok (command_name cmd) s)

  -- The name of each command on a collection.
  abbrev pub name_of : OnCollection → String
  name_of OnCollection.create = "create"
  name_of OnCollection.drop = "drop"
  name_of OnCollection.create_indexes = "createIndexes"
  name_of OnCollection.list_indexes = "listIndexes"
  name_of OnCollection.drop_indexes = "dropIndexes"
  name_of OnCollection.insert = "insert"
  name_of OnCollection.find = "find"
  name_of OnCollection.count = "count"
  name_of OnCollection.distinct = "distinct"
  name_of OnCollection.find_and_modify_one = "findAndModify"
  name_of OnCollection.update = "update"
  name_of OnCollection.delete = "delete"
  name_of OnCollection.aggregate = "aggregate"

  branch-name_of : (c : OnCollection) → branch (name_of c) ≡ Branch.collection c
  unfolding branch fixed_command on_collection
  branch-name_of OnCollection.create = refl
  branch-name_of OnCollection.drop = refl
  branch-name_of OnCollection.create_indexes = refl
  branch-name_of OnCollection.list_indexes = refl
  branch-name_of OnCollection.drop_indexes = refl
  branch-name_of OnCollection.insert = refl
  branch-name_of OnCollection.find = refl
  branch-name_of OnCollection.count = refl
  branch-name_of OnCollection.distinct = refl
  branch-name_of OnCollection.find_and_modify_one = refl
  branch-name_of OnCollection.update = refl
  branch-name_of OnCollection.delete = refl
  branch-name_of OnCollection.aggregate = refl

  run_on_collection-unnamed :
      (c : OnCollection) (value : Value F)
      → text_or_empty value ≡ ""
      → run_on_collection store c cmd value
        ≡ lift (err (bad_value (name_of c +++ " must be a collection name")))
  unfolding run_on_collection
  run_on_collection-unnamed OnCollection.create value empty = rw empty refl
  run_on_collection-unnamed OnCollection.drop value empty = rw empty refl
  run_on_collection-unnamed OnCollection.create_indexes value empty = rw empty refl
  run_on_collection-unnamed OnCollection.list_indexes value empty = rw empty refl
  run_on_collection-unnamed OnCollection.drop_indexes value empty = rw empty refl
  run_on_collection-unnamed OnCollection.insert value empty = rw empty refl
  run_on_collection-unnamed OnCollection.find value empty = rw empty refl
  run_on_collection-unnamed OnCollection.count value empty = rw empty refl
  run_on_collection-unnamed OnCollection.distinct value empty = rw empty refl
  run_on_collection-unnamed OnCollection.find_and_modify_one value empty = rw empty refl
  run_on_collection-unnamed OnCollection.update value empty = rw empty refl
  run_on_collection-unnamed OnCollection.delete value empty = rw empty refl
  run_on_collection-unnamed OnCollection.aggregate value empty = rw empty refl

  -- Each of the thirteen commands on a collection is refused as a bad value, by its name, where its
  -- value is no text or the empty one, and the store is not called.
  pub handle-no_collection_name :
      (s : S) (c : OnCollection) (value : Value F)
      → command_name cmd ≡ ok (name_of c, value)
      → text_or_empty value ≡ ""
      → handle store cmd s ≡ (s, err (bad_value (name_of c +++ " must be a collection name")))
  unfolding handle run_branch
  handle-no_collection_name s c value e empty =
      rw (e, branch-name_of c) (ap (λ m. m s) (run_on_collection-unnamed c value empty))
