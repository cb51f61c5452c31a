-- ===== src/Command/Laws.antt =====
-- How a command is named and dispatched.
use timongo.Prelude.{
  ap, ◌∙◌, String, Bool, true, false, List, [], ◌∷◌, ◌++◌, Option, none, some, not, all,
  if◌then◌else◌, ok, ◌≡◌, refl, arith, ◌↔◌, Bool-cases, inl, inr, eq_iff,
}
use text.Mathlib.Text.{◌==◌}
use timongo.Prelude.Dict.{lookup, has, lookup-insert}
use timongo.Prelude.Text.{starts_with_dollar}
use timongo.Value.{Value, Doc}
use timongo.Command.{
  known_names, names_command, known_command, first_command, empty_command, or_first, command_name,
  Handler, Registry, register, run_handler, handle,
}

module _ {F : Type 0} where
  -- No field of the command can name it.
  abbrev pub is_unnamed : Doc F → Bool
  is_unnamed cmd = all (λ e. not (names_command e.0)) cmd

  lookup-unnamed :
      (key : String) (cmd : Doc F)
      → names_command key ≡ true
      → is_unnamed cmd ≡ true
      → lookup key cmd ≡ none
  unfolding lookup
  lookup-unnamed key [] h unnamed = refl
  lookup-unnamed key ((j, v) ∷ cmd) h unnamed = elim (Bool-cases (j == key)) [
    | inl same ↦ let named : names_command j ≡ true = rw ((eq_iff j key).0 same) h in ground arith
    | inr other ↦ rw other (lookup-unnamed key cmd h (ground arith))
  ]

  known_command-unnamed :
      (keys : List String) (cmd : Doc F)
      → all names_command keys ≡ true
      → is_unnamed cmd ≡ true
      → known_command keys cmd ≡ none
  unfolding known_command
  known_command-unnamed [] cmd h unnamed = refl
  known_command-unnamed (key ∷ keys) cmd h unnamed =
      rw (lookup-unnamed key cmd (ground arith) unnamed)
        (known_command-unnamed keys cmd (ground arith) unnamed)

  first_command-none_iff : (cmd : Doc F) → (first_command cmd ≡ none) ↔ (is_unnamed cmd ≡ true)
  unfolding first_command
  first_command-none_iff [] = (λ _. refl, λ _. refl)
  first_command-none_iff ((key, value) ∷ cmd) = ground (arith, first_command-none_iff cmd)

  first-none_of_empty :
      (known first : Option (String × Value F))
      → or_first known first ≡ empty_command
      → first ≡ none
  first-none_of_empty none none h = refl
  first-none_of_empty none (some found) h = cc
  first-none_of_empty (some found) first h = cc

  -- A command has no name exactly when each of its keys is empty or begins with a dollar.
  pub command_name-empty_iff :
      (cmd : Doc F) → (command_name cmd ≡ empty_command) ↔ (is_unnamed cmd ≡ true)
  unfolding command_name starts_with_dollar
  command_name-empty_iff cmd = (
    λ h. (first_command-none_iff cmd).0 (first-none_of_empty _ _ h),
    λ h. rw (known_command-unnamed known_names cmd refl h, (first_command-none_iff cmd).1 h) refl,
  )

  known_command-append :
      (front back : List String) (key : String) (value : Value F) (cmd : Doc F)
      → all (λ k. not (has k cmd)) front ≡ true
      → lookup key cmd ≡ some value
      → known_command (front ++ key ∷ back) cmd ≡ some (key, value)
  unfolding known_command
  known_command-append [] back key value cmd h found = rw found refl
  known_command-append (k ∷ front) back key value cmd h found =
      ground (arith, known_command-append front back key value cmd)

  -- A command with a known name among its keys has the first of them in the order of the list,
  -- whatever its other fields are and in whatever order Go iterates over them.
  pub command_name-known :
      (front back : List String) (key : String) (value : Value F) (cmd : Doc F)
      → known_names ≡ front ++ key ∷ back
      → all (λ k. not (has k cmd)) front ≡ true
      → lookup key cmd ≡ some value
      → command_name cmd ≡ ok (key, value)
  unfolding command_name
  command_name-known front back key value cmd split earlier found =
      ap (λ keys. or_first (known_command keys cmd) (first_command cmd)) split
      ∙ rw (known_command-append front back key value cmd earlier found) refl

module _ {F S : Type 0} where
  run_registered :
      (test : Bool) (h : Handler F S) (o : Option (Handler F S)) (name : String) (s : S)
      (cmd : Doc F)
      → run_handler (if test then some h else o) name s cmd
        ≡ (if test then h s cmd else run_handler o name s cmd)
  run_registered true h o name s cmd = refl
  run_registered false h o name s cmd = refl

  -- After `Register` a command of that name goes to the new handler, and a command of another name
  -- is handled as it was before.
  pub handle-register :
      (name called : String) (h : Handler F S) (r : Registry F S) (s : S) (cmd : Doc F)
      (value : Value F)
      → command_name cmd ≡ ok (called, value)
      → handle (register name h r) s cmd ≡ (if name == called then h s cmd else handle r s cmd)
  unfolding handle
  handle-register name called h r s cmd value named =
      rw (named, lookup-insert name called h r)
        (run_registered (name == called) h (lookup called r) called s cmd)
