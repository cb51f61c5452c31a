-- ===== src/Cli/Laws.antt =====
-- cmd/timongo/main.go: which setting wins, and which store is run.
use text.Mathlib.Text.{◌==◌}
use timongo.Prelude.{
  String, true, false, List, [], ◌∷◌, none, if◌then◌else◌, Result, ok, ◌≡◌, refl, ◌∙◌, ◌↔◌, ◌≢◌,
  eq_iff, >>=-eq-ok, ok-injective, sym, ap, subst, Bool-cases, inl, inr,
}
use timongo.Prelude.Dict.{lookup, IsMap}
use timongo.Config.{Config, default_config}
use timongo.Cli.{Flags, flag_or, apply_flag, apply_flags, parse_serve_config, build_store}

-- What the flags say, or what was there.
abbrev pub Overrides : Flags → Config → Config → Type 0
Overrides flags base cfg =
    (cfg.listen_addr ≡ flag_or "listen" flags base.listen_addr)
    × (cfg.status_addr ≡ flag_or "status-listen" flags base.status_addr)
    × (cfg.backend ≡ flag_or "backend" flags base.backend)
    × (cfg.tidb_dsn ≡ flag_or "tidb-dsn" flags base.tidb_dsn)
    × (cfg.compat_version ≡ base.compat_version)
    × (cfg.timeout ≡ base.timeout)

-- One flag in front of the others, which do not name it.
abbrev OneFlag : String → Type 0
OneFlag name =
    (given : String) (flags : Flags) (base cfg : Config)
    → lookup name flags ≡ none
    → Overrides flags (apply_flag name given base) cfg
    → Overrides ((name, given) ∷ flags) base cfg

flag_or-none :
    (name : String) (flags : Flags) (default : String)
    → lookup name flags ≡ none
    → flag_or name flags default ≡ default
flag_or-none name flags default h = rw (h, flag_or) refl

flag_or-other :
    (name known given default : String) (flags : Flags)
    → (name == known) ≡ false
    → flag_or known flags default ≡ flag_or known ((name, given) ∷ flags) default
unfolding lookup
flag_or-other name known given default flags h = rw (h, flag_or) refl

listen-flag : OneFlag "listen"
unfolding lookup
listen-flag given flags base cfg fresh h =
    (h.0 ∙ flag_or-none _ flags given fresh, h.1, h.2, h.3, h.4, h.5)

status-flag : OneFlag "status-listen"
unfolding lookup
status-flag given flags base cfg fresh h =
    (h.0, h.1 ∙ flag_or-none _ flags given fresh, h.2, h.3, h.4, h.5)

backend-flag : OneFlag "backend"
unfolding lookup
backend-flag given flags base cfg fresh h =
    (h.0, h.1, h.2 ∙ flag_or-none _ flags given fresh, h.3, h.4, h.5)

dsn-flag : OneFlag "tidb-dsn"
unfolding lookup
dsn-flag given flags base cfg fresh h =
    (h.0, h.1, h.2, h.3 ∙ flag_or-none _ flags given fresh, h.4, h.5)

named : (name known : String) → OneFlag known → (name == known) ≡ true → OneFlag name
named name known h same = subst OneFlag (sym ((eq_iff name known).0 same)) h

-- `-config`, which `fs.Visit` passes over.
unknown :
    (name given : String) (flags : Flags) (base cfg : Config)
    → (name == "listen") ≡ false
    → (name == "status-listen") ≡ false
    → (name == "backend") ≡ false
    → (name == "tidb-dsn") ≡ false
    → Overrides flags (apply_flag name given base) cfg
    → Overrides ((name, given) ∷ flags) base cfg
unknown name given flags base cfg e e' e'' e''' h =
    let same : apply_flag name given base ≡ base = rw (e, e', e'', e''') refl in
    let (listen, status, backend, dsn, compat, timeout) =
      subst (λ b. Overrides flags b cfg) same h in
    (
      listen ∙ flag_or-other name "listen" given base.listen_addr flags e,
      status ∙ flag_or-other name "status-listen" given base.status_addr flags e',
      backend ∙ flag_or-other name "backend" given base.backend flags e'',
      dsn ∙ flag_or-other name "tidb-dsn" given base.tidb_dsn flags e''',
      compat,
      timeout,
    )

one_flag : (name : String) → OneFlag name
unfolding lookup
one_flag name = elim (Bool-cases (name == "listen")) [
  | inl e ↦ named name "listen" listen-flag e
  | inr e ↦ elim (Bool-cases (name == "status-listen")) [
    | inl e' ↦ named name "status-listen" status-flag e'
    | inr e' ↦ elim (Bool-cases (name == "backend")) [
      | inl e'' ↦ named name "backend" backend-flag e''
      | inr e'' ↦ elim (Bool-cases (name == "tidb-dsn")) [
        | inl e''' ↦ named name "tidb-dsn" dsn-flag e'''
        | inr e''' ↦ λ given flags base cfg _ h. unknown name given flags base cfg e e' e'' e''' h
      ]
    ]
  ]
]

apply_flags-Overrides :
    (flags : Flags) (base : Config) → IsMap flags → Overrides flags base (apply_flags flags base)
unfolding apply_flags lookup
apply_flags-Overrides [] base h = (refl, refl, refl, refl, refl, refl)
apply_flags-Overrides ((name, given) ∷ flags) base h =
    one_flag name given flags base (apply_flags flags (apply_flag name given base)) h.0
      (apply_flags-Overrides flags (apply_flag name given base) h.1)

-- There is one such configuration.
overridden :
    (flags : Flags) (base a b : Config) → Overrides flags base a → Overrides flags base b → a ≡ b
overridden flags base a b h h' = λ i. record {
  listen_addr = (h.0 ∙ sym h'.0) i;
  status_addr = (h.1 ∙ sym h'.1) i;
  backend = (h.2 ∙ sym h'.2) i;
  tidb_dsn = (h.3 ∙ sym h'.3) i;
  compat_version = (h.4 ∙ sym h'.4) i;
  timeout = (h.5 ∙ sym h'.5) i;
}

-- The settings of `timongo serve`: a flag that is set wins over the file that `-config` names, and the
-- file over the defaults. A file that is not read is an error, whatever the flags say.
pub parse_serve_config-Overrides :
    (parse : List String → Result Flags) (load_file : String → Result Config) (args : List String)
    (flags : Flags)
    → parse args ≡ ok flags
    → IsMap flags
    → (cfg : Config)
    → (parse_serve_config parse load_file args ≡ ok cfg) ↔ (
        (base : Config) × ((if flag_or "config" flags "" == ""
            then ok default_config
            else load_file (flag_or "config" flags ""))
          ≡ ok base)
        × Overrides flags base cfg)
unfolding parse_serve_config
parse_serve_config-Overrides parse load_file args flags parsed maps cfg = (
  λ e.
      let (base, read, e') = >>=-eq-ok _ _ (rw parsed at e) in
      (
        base,
        read,
        subst (Overrides flags base) (ok-injective e') (apply_flags-Overrides flags base maps),
      ),
  λ h.
      rw (parsed, h.1)
        (ap ok (overridden flags h.0 _ cfg (apply_flags-Overrides flags h.0 maps) h.2)),
)

-- A store is built only on TiDB and with an address, and is then the one that opens there.
pub build_store_iff :
    {S : Type 0} (new_store : String → Result S) (quote : String → String) (cfg : Config) (s : S)
    → (build_store new_store quote cfg ≡ ok s)
      ↔ ((cfg.backend ≡ "tidb") × (cfg.tidb_dsn ≢ "") × (new_store cfg.tidb_dsn ≡ ok s))
unfolding build_store
build_store_iff new_store quote cfg s = (λ h. built h, λ h. runs h)
  where
    built :
        build_store new_store quote cfg ≡ ok s
        → (cfg.backend ≡ "tidb") × (cfg.tidb_dsn ≢ "") × (new_store cfg.tidb_dsn ≡ ok s)
    built h = elim (Bool-cases (cfg.backend == "tidb")) [
      | inl on_tidb ↦ elim (Bool-cases (cfg.tidb_dsn == "")) [
        | inl no_dsn ↦ cc (rw (on_tidb, no_dsn) at h)
        | inr dsn ↦ (
          (eq_iff cfg.backend "tidb").0 on_tidb,
          λ e. cc ((eq_iff cfg.tidb_dsn "").1 e),
          rw (on_tidb, dsn) at h,
        )
      ]
      | inr other ↦ elim (Bool-cases (cfg.backend == "memory")) [
        | inl memory ↦ cc (rw (other, memory) at h)
        | inr unknown_backend ↦ cc (rw (other, unknown_backend) at h)
      ]
    ]

    runs :
        (cfg.backend ≡ "tidb") × (cfg.tidb_dsn ≢ "") × (new_store cfg.tidb_dsn ≡ ok s)
        → build_store new_store quote cfg ≡ ok s
    runs h = elim (Bool-cases (cfg.tidb_dsn == "")) [
      | inl no_dsn ↦ absurd (h.1 ((eq_iff cfg.tidb_dsn "").0 no_dsn))
      | inr dsn ↦ rw ((eq_iff cfg.backend "tidb").1 h.0, dsn) h.2
    ]
