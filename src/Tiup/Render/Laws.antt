-- ===== src/Tiup/Render/Laws.antt =====
-- internal/tiup/render.go: which files a host gets, and the configuration that timongo reads there.
use text.Mathlib.Text.{◌==◌}
use text.Mathlib.TextLemmas.{append-eq-nil_iff}
use timongo.Prelude.{
  ◌≢◌, arith, String, true, false, List, [], ◌∷◌, Option, none, some, if◌then◌else◌, Result, ok,
  ◌>>=◌, ◌≡◌, refl, ◌∙◌, >>=-eq-ok, sym, ap, eq_iff, ok-injective, Bool-cases, inl, inr,
}
use timongo.Prelude.Int.{pos, eqb_ℤ}
use timongo.Prelude.Text.{◌+++◌, print_ℤ}
use timongo.Prelude.Dict.{Dict, insert, lookup, lookup-insert}
use timongo.Config.{Config, FileConfig, apply_file, default_config}
use timongo.Tiup.{Topology, TimongoServer, missing_field}
use timongo.Tiup.Render.{
  RenderedFiles, ServerData, Templates, server_defaults, render_server, render_servers,
  render_timongo_files, or_text,
}

-- The last server of a host.
abbrev pub last_of : String → List TimongoServer → Option TimongoServer
last_of host [] = none
last_of host (s ∷ servers) = elim (last_of host servers) [
  | some found ↦ some found
  | none ↦ if s.host == host then some s else none
]

-- What is rendered of a server, or what was there.
abbrev pub Renders :
    (ServerData → Result String)
    → (ServerData → Result String)
    → String
    → Option TimongoServer
    → Option RenderedFiles
    → Option RenderedFiles
    → Type 0
Renders config_template service_template user none before after = after ≡ before
Renders config_template service_template user (some s) before after =
    (files : RenderedFiles) × (render_server config_template service_template user s ≡ ok files)
    × (after ≡ some files)

module _ (config_template service_template : ServerData → Result String) (user : String) where
  render_servers-Renders :
      (servers : List TimongoServer) (before after : Dict RenderedFiles) (host : String)
      → render_servers config_template service_template user servers before ≡ ok after
      → Renders config_template service_template user
          (last_of host servers)
          (lookup host before)
          (lookup host after)
  unfolding render_servers
  render_servers-Renders [] before after host h = ap (lookup host) (ok-injective (sym h))
  render_servers-Renders (s ∷ servers) before after host h =
      let (files, rendered, h') =
        >>=-eq-ok (render_server config_template service_template user s) _ h in
      later (last_of host servers) files rendered
        (render_servers-Renders servers (insert s.host files before) after host h')
    where
      later :
          (found : Option TimongoServer) (files : RenderedFiles)
          → render_server config_template service_template user s ≡ ok files
          → Renders config_template service_template user found
              (lookup host (insert s.host files before))
              (lookup host after)
          → Renders config_template service_template user
              (elim found as (λ _. Option TimongoServer) [
                | some f ↦ some f
                | none ↦ if s.host == host then some s else none
              ])
              (lookup host before)
              (lookup host after)
      later (some f) files rendered r = r
      later none files rendered r = elim (Bool-cases (s.host == host)) [
        | inl same ↦ rw same (files, rendered, r ∙ rw (lookup-insert, same) refl)
        | inr other ↦ rw other (r ∙ rw (lookup-insert, other) refl)
      ]

-- A host has files exactly if it has a server, and they are what the two templates make of the last
-- server of that host, with the defaults for what it leaves open. What comes before it on the same
-- host is lost.
pub render_timongo_files-last :
    (templates : Templates) (config_template service_template : ServerData → Result String)
    (topo : Topology) (files : Dict RenderedFiles) (host : String)
    → templates.config ≡ ok config_template
    → templates.service ≡ ok service_template
    → render_timongo_files templates (some topo) ≡ ok files
    → Renders config_template service_template
        (or_text topo.global.user "tidb")
        (last_of host topo.timongo_servers)
        none
        (lookup host files)
unfolding render_timongo_files lookup
render_timongo_files-last templates config_template service_template topo files host e e' h =
    render_servers-Renders config_template service_template (or_text topo.global.user "tidb")
      topo.timongo_servers [] files host (rw (e, e') at h)

-- The file internal/tiup/templates/timongo.toml.tmpl with the fields of a server in it, as a TOML
-- parser reads it.
unfoldable pub file_of : TimongoServer → FileConfig
file_of s = record {
  mongo_listen_addr = "0.0.0.0:" +++ print_ℤ s.port;
  mongo_compat_version = s.config.compat_version;
  status_listen_addr = "0.0.0.0:" +++ print_ℤ s.status_port;
  tidb = record {
    host = s.tidb_host;
    port = s.tidb_port;
    database = "_timongo";
    user = "";
    password = "";
    dsn = "";
    max_open_conns = s.config.tidb_max_open_conns;
  };
  stateless = some true;
  cursor_ttl = s.config.cursor_ttl;
  session_ttl = s.config.session_ttl;
  transaction_timeout = s.config.transaction_timeout;
}

-- What timongo runs with, of a server of the topology.
abbrev pub deployed : TimongoServer → Config
deployed s = record {
  listen_addr = "0.0.0.0:" +++ print_ℤ s.port;
  status_addr = "0.0.0.0:" +++ print_ℤ s.status_port;
  backend = "tidb";
  tidb_dsn =
      "root"
      +++ "@tcp("
      +++ s.tidb_host
      +++ ":"
      +++ print_ℤ s.tidb_port
      +++ ")/_timongo?parseTime=true";
  compat_version = or_text s.config.compat_version "6.0";
  timeout = default_config.timeout;
}

complete_parts :
    (s : TimongoServer)
    → missing_field s ≡ none
    → (eqb_ℤ s.port (pos 0) ≡ false)
      × (eqb_ℤ s.status_port (pos 0) ≡ false)
      × ((s.tidb_host == "") ≡ false)
      × (eqb_ℤ s.tidb_port (pos 0) ≡ false)
unfolding missing_field
complete_parts s h = (ground arith, ground arith, ground arith, ground arith)

or_text-default : (given : String) → or_text (or_text given "6.0") "6.0" ≡ or_text given "6.0"
or_text-default given = elim (Bool-cases (given == "")) [
  | inl none_given ↦ rw none_given refl
  | inr some_given ↦ rw (some_given, some_given) refl
]

append-not_empty : (s t : String) → s ≢ "" → ((s +++ t) == "") ≡ false
append-not_empty s t full = elim (Bool-cases ((s +++ t) == "")) [
  | inl same ↦ absurd (full ((append-eq-nil_iff.0 ((eq_iff (s +++ t) "").0 same)).0))
  | inr differ ↦ differ
]

not_empty : (s : String) → (s == "") ≡ false → s ≢ ""
not_empty s h e = cc ((eq_iff s "").1 e)

any_address : (t : String) → (("0.0.0.0:" +++ t) == "") ≡ false
any_address t = append-not_empty "0.0.0.0:" t (not_empty "0.0.0.0:" refl)

root_address : (t : String) → (("root" +++ t) == "") ≡ false
root_address t = append-not_empty "root" t (not_empty "root" refl)

deployed-file :
    (escape : String → String) (s : TimongoServer)
    → missing_field s ≡ none
    → apply_file escape (file_of (server_defaults s)) ≡ ok (deployed s)
unfolding file_of server_defaults apply_file
deployed-file escape s complete =
    let (port, status_port, tidb_host, tidb_port) = complete_parts s complete in
    rw (port, status_port, tidb_host, tidb_port, or_text-default s.config.compat_version)
      (rw (any_address (print_ℤ s.port), any_address (print_ℤ s.status_port), root_address _) refl)

-- A server that `ParseTopology` accepts gets a configuration that `LoadFile` accepts: timongo listens
-- on the server's ports and connects to its TiDB as root. The TOML parser is one that reads of the
-- rendered template the fields that stand in it.
pub render_server-loads :
    (escape : String → String) (read_toml : String → Result FileConfig)
    (config_template service_template : ServerData → Result String) (user : String)
    (s : TimongoServer) (files : RenderedFiles)
    → ((text : String)
        → config_template (record { user = user; server = server_defaults s }) ≡ ok text
        → read_toml text ≡ ok (file_of (server_defaults s)))
    → missing_field s ≡ none
    → render_server config_template service_template user s ≡ ok files
    → (read_toml files.config >>= apply_file escape) ≡ ok (deployed s)
unfolding render_server
render_server-loads escape read_toml config_template service_template user s files reads complete
      h =
    let of_server : ServerData = record { user = user; server = server_defaults s } in
    let (text, executed, h') = >>=-eq-ok (config_template of_server) _ h in
    let (service, executed', h'') = >>=-eq-ok (service_template of_server) _ h' in
    let same : text ≡ files.config = ap (λ f. f.config) (ok-injective h'') in
    rw (← same, reads text executed) (deployed-file escape s complete)
