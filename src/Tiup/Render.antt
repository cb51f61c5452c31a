-- ===== src/Tiup/Render.antt =====
-- internal/tiup/render.go: `RenderTimongoFiles` and `normalizeServerDefaults`. The package
-- text/template is a parameter.
pub mod Laws
use text.Mathlib.Text.{◌==◌}
use timongo.Prelude.{
  String, List, [], ◌∷◌, Option, none, some, if◌then◌else◌, Result, ok, err, ◌>>=◌, library_error,
}
use timongo.Prelude.Int.{ℤ, pos, eqb_ℤ}
use timongo.Prelude.Text.{◌+++◌, print_ℤ}
use timongo.Prelude.Dict.{Dict, insert}
use timongo.Tiup.{Topology, TimongoServer, TimongoConfig}

pub record RenderedFiles : Type 0 where
  pub config : String
  pub service : String
  pub deploy_dir : String
  pub log_dir : String

-- What a template is executed on.
pub record ServerData : Type 0 where
  pub user : String
  pub server : TimongoServer

-- `Parse` and `Execute` on the two embedded templates.
pub record Templates : Type 0 where
  pub config : Result (ServerData → Result String)
  pub service : Result (ServerData → Result String)

abbrev pub or_number : ℤ → ℤ → ℤ
or_number given default = if eqb_ℤ given (pos 0) then default else given

abbrev pub or_text : String → String → String
or_text given default = if given == "" then default else given

abbrev pub config_defaults : TimongoConfig → TimongoConfig
config_defaults c = record c {
  compat_version = or_text c.compat_version "6.0";
  cursor_ttl = or_text c.cursor_ttl "10m";
  session_ttl = or_text c.session_ttl "30m";
  transaction_timeout = or_text c.transaction_timeout "60s";
  tidb_max_open_conns = or_number c.tidb_max_open_conns (pos 4096);
}

-- `normalizeServerDefaults(server)`
unfoldable pub server_defaults : TimongoServer → TimongoServer
server_defaults s =
    let port = or_number s.port (pos 27017) in
    let deploy_dir = or_text s.deploy_dir ("/tidb-deploy/timongo-" +++ print_ℤ port) in
    record s {
      port = port;
      status_port = or_number s.status_port (pos 28017);
      deploy_dir = deploy_dir;
      log_dir = or_text s.log_dir (deploy_dir +++ "/log");
      config = config_defaults s.config;
    }

-- One round of the loop over the servers.
unfoldable pub render_server :
    (ServerData → Result String)
    → (ServerData → Result String)
    → String
    → TimongoServer
    → Result RenderedFiles
unfolding server_defaults
render_server config_template service_template user s = do
  let server = server_defaults s
  config ← config_template (record { user = user; server = server })
  service ← service_template (record { user = user; server = server })
  ok (record {
    config = config;
    service = service;
    deploy_dir = server.deploy_dir;
    log_dir = server.log_dir;
  })

unfoldable pub render_servers :
    (ServerData → Result String)
    → (ServerData → Result String)
    → String
    → List TimongoServer
    → Dict RenderedFiles
    → Result (Dict RenderedFiles)
unfolding render_server
render_servers config_template service_template user [] files = ok files
render_servers config_template service_template user (s ∷ servers) files = do
  rendered ← render_server config_template service_template user s
  render_servers config_template service_template user servers (insert s.host rendered files)

-- `RenderTimongoFiles(topo)`
unfoldable pub render_timongo_files : Templates → Option Topology → Result (Dict RenderedFiles)
unfolding render_servers
render_timongo_files templates none = err (library_error "topology is nil")
render_timongo_files templates (some topo) = do
  config_template ← templates.config
  service_template ← templates.service
  render_servers config_template service_template (or_text topo.global.user "tidb")
      topo.timongo_servers []
