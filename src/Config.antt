-- ===== src/Config.antt =====
-- internal/config: the settings of the server and their defaults (config.go), and the configuration
-- file (file.go). Reading a file, the TOML parser and `url.QueryEscape` are parameters.
use text.Mathlib.Text.{◌==◌}
use text.Mathlib.TextLemmas.{nil-append, append_assoc}
use timongo.Prelude.{
  arith, String, ℕ, Bool, true, false, List, Option, none, some, if◌then◌else◌, ◌&&◌, ◌||◌, not,
  ◌≡◌, refl, sym, ap, ◌∙◌, Bool-cases, inl, inr, eq_iff, >>=-eq-ok, ok-injective, Result, ok, err,
  ◌>>=◌, library_error,
}
use timongo.Prelude.Int.{ℤ, pos, eqb_ℤ}
use timongo.Prelude.Text.{◌+++◌, print_ℤ}

-- A duration is in nanoseconds.
pub record Config : Type 0 where
  pub listen_addr : String
  pub status_addr : String
  pub backend : String
  pub tidb_dsn : String
  pub compat_version : String
  pub timeout : ℤ

-- `Default()`
abbrev pub default_config : Config
default_config = record {
  listen_addr = "127.0.0.1:27017";
  status_addr = "127.0.0.1:28017";
  backend = "tidb";
  tidb_dsn = "";
  compat_version = "6.0";
  timeout = pos 30000000000;
}

pub record TidbConfig : Type 0 where
  pub host : String
  pub port : ℤ
  pub database : String
  pub user : String
  pub password : String
  pub dsn : String
  pub max_open_conns : ℤ

-- The sections `mongo`, `status`, `tidb` and `runtime` of the file.
pub record FileConfig : Type 0 where
  pub mongo_listen_addr : String
  pub mongo_compat_version : String
  pub status_listen_addr : String
  pub tidb : TidbConfig
  pub stateless : Option Bool
  pub cursor_ttl : String
  pub session_ttl : String
  pub transaction_timeout : String

abbrev pub or_default : String → String → String
or_default given default = if given == "" then default else given

-- `stateless != nil && !*stateless`
abbrev pub keeps_state : Option Bool → Bool
keeps_state none = false
keeps_state (some b) = not b

-- A `tidb` section with a host and no port, or a port and no host, and no whole address.
abbrev pub is_half : TidbConfig → Bool
is_half cfg =
    (cfg.dsn == "")
    && ((cfg.host == "" && not (eqb_ℤ cfg.port (pos 0)))
        || (not (cfg.host == "") && eqb_ℤ cfg.port (pos 0)))

abbrev pub is_config : Result Config → Bool
is_config r = elim r [ ok _ ↦ true | _ ↦ false ]

module _ (query_escape : String → String) where
  abbrev auth : TidbConfig → String
  auth cfg =
      let user = or_default cfg.user "root" in
      if cfg.password == "" then user else user +++ ":" +++ query_escape cfg.password

  -- `buildTiDBDSN(cfg)`
  unfoldable pub build_tidb_dsn : TidbConfig → Result String
  build_tidb_dsn cfg =
      if not (cfg.dsn == "")
      then ok cfg.dsn
      else if cfg.host == "" && eqb_ℤ cfg.port (pos 0)
      then ok ""
      else if cfg.host == ""
      then err (library_error "tidb.host is required when tidb config is provided")
      else if eqb_ℤ cfg.port (pos 0)
      then err (library_error "tidb.port is required when tidb config is provided")
      else ok (
          auth cfg
          +++ "@tcp("
          +++ cfg.host
          +++ ":"
          +++ print_ℤ cfg.port
          +++ ")/"
          +++ or_default cfg.database "_timongo"
          +++ "?parseTime=true")

  -- What `LoadFile` makes of a parsed file.
  unfoldable pub apply_file : FileConfig → Result Config
  unfolding build_tidb_dsn
  apply_file file =
      if keeps_state file.stateless
      then err (library_error "timongo-server must run stateless=true")
      else do
        dsn ← build_tidb_dsn file.tidb
        ok (record default_config {
          listen_addr = or_default file.mongo_listen_addr default_config.listen_addr;
          compat_version = or_default file.mongo_compat_version default_config.compat_version;
          status_addr = or_default file.status_listen_addr default_config.status_addr;
          tidb_dsn = or_default dsn default_config.tidb_dsn;
        })

  -- `LoadFile(path)`
  unfoldable pub load_file :
      (String → Result (List ℕ)) → (List ℕ → Result FileConfig) → String → Result Config
  unfolding apply_file
  load_file read_file unmarshal path = do
    raw ← read_file path
    file ← unmarshal raw
    apply_file file

  -- The address of TiDB by its parts, `user[:password]@tcp(host:port)/database`: none without a host.
  abbrev pub address_of : TidbConfig → String
  address_of cfg =
      if not (cfg.dsn == "")
      then cfg.dsn
      else if cfg.host == ""
      then ""
      else ((if cfg.user == "" then "root" else cfg.user)
          +++ (if cfg.password == "" then "" else ":" +++ query_escape cfg.password)
          +++ "@tcp("
          +++ cfg.host
          +++ ":"
          +++ print_ℤ cfg.port
          +++ ")/"
          +++ (if cfg.database == "" then "_timongo" else cfg.database)
          +++ "?parseTime=true")

  or_empty_text : (s : String) → or_default s "" ≡ s
  or_empty_text s = elim (Bool-cases (s == "")) [
    | inl empty ↦ rw empty (sym ((eq_iff s "").0 empty))
    | inr full ↦ rw full refl
  ]

  auth-lem :
      (cfg : TidbConfig) (rest : String)
      → auth cfg +++ rest
        ≡ (if cfg.user == "" then "root" else cfg.user)
          +++ (if cfg.password == "" then "" else ":" +++ query_escape cfg.password)
          +++ rest
  auth-lem cfg rest = elim (Bool-cases (cfg.password == "")) [
    | inl none_given ↦
        rw none_given (ap (λ t. or_default cfg.user "root" +++ t) (sym (nil-append rest)))
    | inr given ↦
        rw given (
          append_assoc (or_default cfg.user "root") (":" +++ query_escape cfg.password) rest ∙ refl)
  ]

  build_tidb_dsn-lem :
      (cfg : TidbConfig) (dsn : String) → build_tidb_dsn cfg ≡ ok dsn → dsn ≡ address_of cfg
  unfolding build_tidb_dsn
  build_tidb_dsn-lem cfg dsn h = elim (Bool-cases (cfg.dsn == "")) [
    | inr whole ↦ rw whole (sym (ok-injective (rw whole at h)))
    | inl parts ↦ elim (Bool-cases (cfg.host == "")) [
      | inl no_host ↦ elim (Bool-cases (eqb_ℤ cfg.port (pos 0))) [
        | inl no_port ↦ rw (parts, no_host) (sym (ok-injective (rw (parts, no_host, no_port) at h)))
        | inr port ↦ cc (rw (parts, no_host, port) at h)
      ]
      | inr host ↦ elim (Bool-cases (eqb_ℤ cfg.port (pos 0))) [
        | inl no_port ↦ cc (rw (parts, host, no_port) at h)
        | inr port ↦
            rw (parts, host) (sym (ok-injective (rw (parts, host, port) at h)) ∙ auth-lem cfg _)
      ]
    ]
  ]

  plain_settings :
      (file : FileConfig) (c : Config)
      → apply_file file ≡ ok c
      → (c.backend ≡ "tidb")
        × (c.timeout ≡ default_config.timeout)
        × (c.listen_addr ≡ or_default file.mongo_listen_addr default_config.listen_addr)
        × (c.status_addr ≡ or_default file.status_listen_addr default_config.status_addr)
        × (c.compat_version ≡ or_default file.mongo_compat_version default_config.compat_version)
  unfolding apply_file
  plain_settings file c h = ground arith

  dsn_setting :
      (file : FileConfig) (c : Config) → apply_file file ≡ ok c → c.tidb_dsn ≡ address_of file.tidb
  unfolding apply_file
  dsn_setting file c h = elim (Bool-cases (keeps_state file.stateless)) [
    | inl keeps ↦ cc (rw keeps at h)
    | inr stateless ↦
        let (dsn, built, same) = >>=-eq-ok (build_tidb_dsn file.tidb) _ (rw stateless at h) in
        ap (λ (s : Config). s.tidb_dsn) (sym (ok-injective same))
        ∙ or_empty_text dsn
        ∙ build_tidb_dsn-lem file.tidb dsn built
  ]

  -- A parsed file is accepted exactly when it does not ask for a server that keeps state and its
  -- `tidb` section is not half there. What it accepts runs on TiDB with the default timeout, and
  -- listens where the file says, or at the default address where it says nothing. Its address of
  -- TiDB is the file's own, or made of the parts that the file gives.
  pub apply_file_iff :
      (file : FileConfig)
      → (is_config (apply_file file) ≡ not (keeps_state file.stateless || is_half file.tidb))
        × ((c : Config)
            → apply_file file ≡ ok c
            → (c.backend ≡ "tidb")
              × (c.timeout ≡ default_config.timeout)
              × (c.listen_addr ≡ or_default file.mongo_listen_addr default_config.listen_addr)
              × (c.status_addr ≡ or_default file.status_listen_addr default_config.status_addr)
              × (c.compat_version
                  ≡ or_default file.mongo_compat_version default_config.compat_version)
              × (c.tidb_dsn ≡ address_of file.tidb))
  unfolding apply_file
  apply_file_iff file = (
    ground arith,
    λ c h.
        let (backend, timeout, listen, status, compat) = plain_settings file c h in
        (backend, timeout, listen, status, compat, dsn_setting file c h),
  )
