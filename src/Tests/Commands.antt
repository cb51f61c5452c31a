-- ===== src/Tests/Commands.antt =====
-- The theorems of internal/command/registry.go and internal/bsonutil/bsonutil.go, at concrete
-- inputs.
use timongo.Value.{Value, ordered, field, slice, cons, nil, end, str, Doc}
use timongo.Prelude.{true, [], ◌∷◌, ◌≡◌, refl, ok, ◌↔◌, if◌then◌else◌, ℕ, suc}
use timongo.Prelude.Int.{ℤ}
use timongo.Command.{command_name, Handler}
use timongo.Command.Laws.{command_name-known}
use timongo.Tests.{num}

-- The payload is in front of the command's name.
abbrev ping : Doc ℤ
ping = ("$db", str "app") ∷ ("documents", num 0) ∷ ("ping", num 1) ∷ []

command_name-known_example : command_name ping ≡ ok ("ping", num 1)
unfolding timongo.Prelude.Dict.lookup
command_name-known_example =
    command_name-known ("hello" ∷ "isMaster" ∷ "ismaster" ∷ []) _ "ping" (num 1) ping refl refl refl

ping_named : command_name ping ≡ ok ("ping", num 1)
unfolding timongo.Prelude.Dict.lookup
ping_named =
    command_name-known ("hello" ∷ "isMaster" ∷ "ismaster" ∷ []) _ "ping" (num 1) ping refl refl refl

abbrev only_db : Doc ℤ
only_db = ("$db", str "app") ∷ ("", num 0) ∷ []

-- A handler that counts its calls.
abbrev counting : Handler ℤ ℕ
counting s cmd = (suc s, ok (("ok", num 1) ∷ []))

-- A `bson.D` that has a key twice, and an array of another type.
abbrev ordered_pair : Value ℤ
ordered_pair = ordered (field "a" (num 1) (field "a" (slice (cons (num 2) nil)) end))
