-- ===== src/Command.antt =====
-- internal/command/registry.go. A handler takes the state that its server keeps, and the command, to
-- the state after it and the reply. A context is not modelled.
pub mod Laws
use text.Mathlib.Text.{◌==◌}
use timongo.Prelude.{
  String, Bool, List, [], ◌∷◌, Option, none, some, not, ◌&&◌, if◌then◌else◌, Result, ok, err, panic,
}
use timongo.Prelude.Dict.{Dict, lookup, insert}
use timongo.Prelude.Text.{◌+++◌, starts_with_dollar}
use timongo.Value.{Value, Doc}
use timongo.Mongoerrors.{new, code_command_not_found, code_bad_value}

abbrev pub known_names : List String
known_names =
    "hello" ∷ "isMaster" ∷ "ismaster" ∷ "ping" ∷ "buildInfo" ∷ "serverStatus" ∷ "create"
    ∷ "listCollections" ∷ "createIndexes" ∷ "listIndexes" ∷ "dropIndexes" ∷ "drop" ∷ "dropDatabase"
    ∷ "insert" ∷ "find" ∷ "count" ∷ "distinct" ∷ "findAndModify" ∷ "update" ∷ "delete" ∷ "aggregate"
    ∷ "listDatabases" ∷ "renameCollection" ∷ "dropTarget" ∷ "collMod" ∷ "connectionStatus"
    ∷ "dbStats" ∷ "collStats" ∷ "hostInfo" ∷ "getCmdLineOpts" ∷ "getParameter" ∷ "currentOp" ∷ "top"
    ∷ "profile" ∷ "listCommands" ∷ "usersInfo" ∷ "rolesInfo" ∷ "getDefaultRWConcern" ∷ "validate"
    ∷ "planCacheClear" ∷ "planCacheListPlans" ∷ "explain" ∷ []

-- `len(key) > 0 && key[0] != '$'`
abbrev pub names_command : String → Bool
names_command key = not (key == "") && not (starts_with_dollar key)

module _ {F : Type 0} where
  abbrev pub or_next :
      Option (Value F) → String → Option (String × Value F) → Option (String × Value F)
  or_next none key rest = rest
  or_next (some value) key rest = some (key, value)

  -- The loop over the known names.
  unfoldable pub known_command : List String → Doc F → Option (String × Value F)
  known_command [] cmd = none
  known_command (key ∷ keys) cmd =
      let rest = known_command keys cmd in or_next (lookup key cmd) key rest

  -- The loop over the command's fields.
  unfoldable pub first_command : Doc F → Option (String × Value F)
  first_command [] = none
  first_command ((key, value) ∷ cmd) =
      let rest = first_command cmd in if names_command key then some (key, value) else rest

  abbrev pub empty_command : Result (String × Value F)
  empty_command = err (new code_bad_value "BadValue" "empty command")

  abbrev pub or_empty_command : Option (String × Value F) → Result (String × Value F)
  or_empty_command none = empty_command
  or_empty_command (some found) = ok found

  abbrev pub or_first :
      Option (String × Value F) → Option (String × Value F) → Result (String × Value F)
  or_first (some found) first = ok found
  or_first none first = or_empty_command first

  -- `Name(cmd)`
  unfoldable pub command_name : Doc F → Result (String × Value F)
  unfolding known_command first_command
  command_name cmd = or_first (known_command known_names cmd) (first_command cmd)

abbrev pub Handler : Type 0 → Type 0 → Type 0
Handler F S = S → Doc F → S × Result (Doc F)

-- The handlers of a `Registry`, by name.
abbrev pub Registry : Type 0 → Type 0 → Type 0
Registry F S = Dict (Handler F S)

module _ {F S : Type 0} where
  abbrev pub new_registry : Registry F S
  new_registry = []

  abbrev pub register : String → Handler F S → Registry F S → Registry F S
  register name h r = insert name h r

  abbrev pub run_handler : Option (Handler F S) → String → S → Doc F → S × Result (Doc F)
  run_handler none name s cmd =
      (s, err (new code_command_not_found "CommandNotFound" ("no such command: " +++ name)))
  run_handler (some h) name s cmd = h s cmd

  abbrev pub dispatch : Result (String × Value F) → Registry F S → S → Doc F → S × Result (Doc F)
  dispatch (ok (name, value)) r s cmd = run_handler (lookup name r) name s cmd
  dispatch (err e) r s cmd = (s, err e)
  dispatch panic r s cmd = (s, panic)

  -- `(*Registry).Handle`
  unfoldable pub handle : Registry F S → S → Doc F → S × Result (Doc F)
  unfolding command_name
  handle r s cmd = dispatch (command_name cmd) r s cmd
