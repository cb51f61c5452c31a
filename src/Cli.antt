-- ===== src/Cli.antt =====
-- cmd/timongo/main.go: the settings of `timongo serve`, the store that it runs on, and `timongo tiup`.
-- The packages flag, os and path/filepath are parameters.
pub mod Laws
pub mod TiupCommands
use text.Mathlib.Text.{◌==◌}
use timongo.Prelude.{
  String, ℕ, Bool, List, [], ◌∷◌, Option, none, some, if◌then◌else◌, ◌||◌, Result, ok, err, ◌>>=◌,
  library_error,
}
use timongo.Prelude.Text.{◌+++◌}
use timongo.Prelude.Dict.{Dict, lookup}
use timongo.Config.{Config, default_config}

-- The flags that the command line sets, with their values: what `fs.Parse` leaves behind.
abbrev pub Flags : Type 0
Flags = Dict String

abbrev pub flag_or : String → Flags → String → String
flag_or name flags default = elim (lookup name flags) [ none ↦ default | some given ↦ given ]

-- One step of `fs.Visit`.
abbrev pub apply_flag : String → String → Config → Config
apply_flag name given cfg =
    if name == "listen"
    then record cfg { listen_addr = given }
    else if name == "status-listen"
    then record cfg { status_addr = given }
    else if name == "backend"
    then record cfg { backend = given }
    else if name == "tidb-dsn"
    then record cfg { tidb_dsn = given }
    else cfg

unfoldable pub apply_flags : Flags → Config → Config
apply_flags [] cfg = cfg
apply_flags ((name, given) ∷ flags) cfg = apply_flags flags (apply_flag name given cfg)

-- `parseServeConfig(args)`
unfoldable pub parse_serve_config :
    (List String → Result Flags) → (String → Result Config) → List String → Result Config
unfolding apply_flags
parse_serve_config parse load_file args = do
  flags ← parse args
  let path = flag_or "config" flags ""
  cfg ← if path == "" then ok default_config else load_file path
  ok (apply_flags flags cfg)

-- `buildStore(cfg)`
unfoldable pub build_store :
    {S : Type 0} → (String → Result S) → (String → String) → Config → Result S
build_store new_store quote cfg =
    if cfg.backend == "tidb"
    then (if cfg.tidb_dsn == ""
        then err (library_error "-tidb-dsn is required when -backend=tidb")
        else new_store cfg.tidb_dsn)
    else if cfg.backend == "memory"
    then err (
        library_error "memory backend is test-only; timongo runtime must be stateless and use tidb")
    else err (library_error ("unsupported backend " +++ quote cfg.backend))
