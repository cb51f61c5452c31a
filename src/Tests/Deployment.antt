-- ===== src/Tests/Deployment.antt =====
-- The theorems of internal/config, internal/tiup and cmd/timongo, at concrete inputs.
use timongo.Prelude.{
  ◌>>=◌, String, true, List, [], ◌∷◌, ◌++◌, some, none, Result, ◌>>=◌, ◌↔◌, if◌then◌else◌, all,
  filter, length, not, ◌||◌, ◌≡◌, refl, ok, err,
}
use text.Mathlib.Text.{◌==◌}
use timongo.Prelude.Int.{ℤ, pos}
use timongo.Prelude.Text.{print_ℤ}
use timongo.Prelude.Dict.{lookup, insert}
use timongo.Tiup.Render.{
  ServerData, Templates, RenderedFiles, render_timongo_files, render_server, server_defaults,
}
use timongo.Tiup.Render.Laws.{
  Renders, last_of, render_timongo_files-last, file_of, deployed, render_server-loads,
}
use timongo.Cli.{Flags, flag_or, parse_serve_config}
use timongo.Cli.Laws.{Overrides, parse_serve_config-Overrides}
use timongo.Config.{
  address_of, Config, FileConfig, apply_file, apply_file_iff, default_config, is_config, is_half,
  keeps_state, or_default,
}
use timongo.Tiup.{
  first_lacking, needed, Topology, TimongoServer, parse_topology, parse_topology-lem, is_complete,
  missing_field, required,
}
use timongo.Tiup.Split.{
  Node, Kind, node, no_nodes, split_pairs, split_pairs-lem, content_of, for_tidb, for_timongo,
}

-- A file that names the host of TiDB and no port.
abbrev full_file : FileConfig
full_file = record {
  mongo_listen_addr = "0.0.0.0:27017";
  mongo_compat_version = "";
  status_listen_addr = "";
  tidb = record {
    host = "10.0.0.1";
    port = pos 4000;
    database = "";
    user = "";
    password = "";
    dsn = "";
    max_open_conns = pos 0;
  };
  stateless = some true;
  cursor_ttl = "";
  session_ttl = "";
  transaction_timeout = "";
}

-- The file is accepted, so what is said of its settings is said of these.
full_settings :
    (apply_file (λ s. s) full_file >>= λ c. ok c.tidb_dsn)
    ≡ ok "root@tcp(10.0.0.1:4000)/_timongo?parseTime=true"
unfolding apply_file print_ℤ
full_settings = refl

apply_file_iff_example :
    (is_config (apply_file (λ s. s) full_file)
      ≡ not (keeps_state full_file.stateless || is_half full_file.tidb))
    × ((c : Config)
        → apply_file (λ s. s) full_file ≡ ok c
        → (c.backend ≡ "tidb")
          × (c.timeout ≡ default_config.timeout)
          × (c.listen_addr ≡ or_default full_file.mongo_listen_addr default_config.listen_addr)
          × (c.status_addr ≡ or_default full_file.status_listen_addr default_config.status_addr)
          × (c.compat_version
              ≡ or_default full_file.mongo_compat_version default_config.compat_version)
          × (c.tidb_dsn ≡ address_of (λ s. s) full_file.tidb))
apply_file_iff_example = apply_file_iff (λ s. s) full_file

abbrev server_at : ℤ → TimongoServer
server_at status_port = record {
  host = "10.0.0.2";
  port = pos 27017;
  status_port = status_port;
  deploy_dir = "";
  log_dir = "";
  tidb_host = "10.0.0.1";
  tidb_port = pos 4000;
  config = record {
    compat_version = "";
    stateless = true;
    cursor_ttl = "";
    session_ttl = "";
    transaction_timeout = "";
    max_connections = pos 0;
    tidb_max_open_conns = pos 0;
  };
}

abbrev two_servers : Topology
two_servers = record {
  global = record { user = "tidb"; deploy_dir = "/deploy"; data_dir = "/data" };
  timongo_servers = server_at (pos 28017) ∷ server_at (pos 0) ∷ [];
  timongo_lb_servers = [];
}

parse_topology-lem_example :
    (all is_complete two_servers.timongo_servers ≡ true
      → parse_topology (λ raw. ok two_servers) [] ≡ ok two_servers)
    × ((front rest : List TimongoServer) (server : TimongoServer) (name : String)
        → two_servers.timongo_servers ≡ front ++ server ∷ rest
        → all is_complete front ≡ true
        → first_lacking (needed server) ≡ some name
        → parse_topology (λ raw. ok two_servers) [] ≡ err (required (length front) name))
parse_topology-lem_example = parse_topology-lem (λ raw. ok two_servers) [] two_servers refl

-- Nodes without a style.
abbrev scalar_node : String → Node (Unit {0})
scalar_node value = node tt Kind.scalar value no_nodes

abbrev sections : List (Node (Unit {0}) × Node (Unit {0}))
sections =
    (scalar_node "global", scalar_node "a")
    ∷ (scalar_node "tidb_servers", scalar_node "b")
    ∷ (scalar_node "timongo_servers", scalar_node "c")
    ∷ []

split_pairs-lem_example :
    split_pairs (content_of sections)
    ≡ ok (content_of (filter for_tidb sections), content_of (filter for_timongo sections))
split_pairs-lem_example = split_pairs-lem sections

abbrev show_port : ServerData → Result String
show_port of_server = ok (print_ℤ of_server.server.port)

abbrev on_status_port : Templates
on_status_port = record {
  config = ok show_port;
  service = ok (λ of_server. ok (print_ℤ of_server.server.status_port));
}

abbrev rendered_at : ℤ → RenderedFiles
rendered_at port = record {
  config = "27017";
  service = print_ℤ port;
  deploy_dir = "/tidb-deploy/timongo-27017";
  log_dir = "/tidb-deploy/timongo-27017/log";
}

render_timongo_files-last_example :
    Renders show_port
      (λ of_server. ok (print_ℤ of_server.server.status_port))
      "tidb"
      (last_of "10.0.0.2" two_servers.timongo_servers)
      none
      (lookup "10.0.0.2" (("10.0.0.2", rendered_at (pos 28017)) ∷ []))
unfolding render_timongo_files print_ℤ insert
render_timongo_files-last_example =
    render_timongo_files-last on_status_port show_port
      (λ of_server. ok (print_ℤ of_server.server.status_port)) two_servers
      (("10.0.0.2", rendered_at (pos 28017)) ∷ []) "10.0.0.2" refl refl refl

abbrev read_first : String → Result FileConfig
read_first text = ok (file_of (server_defaults (server_at (pos 28018))))

render_server-loads_example :
    (read_first (rendered_at (pos 28018)).config >>= apply_file (λ s. s))
    ≡ ok (deployed (server_at (pos 28018)))
unfolding render_server print_ℤ missing_field
render_server-loads_example =
    render_server-loads (λ s. s) read_first show_port
      (λ of_server. ok (print_ℤ of_server.server.status_port)) "tidb" (server_at (pos 28018))
      (rendered_at (pos 28018)) (λ text e. refl) refl refl

abbrev given_flags : Flags
given_flags = ("backend", "memory") ∷ ("config", "timongo.toml") ∷ []

abbrev loaded : Config
loaded = record default_config { listen_addr = "0.0.0.0:27018" }

parse_serve_config-Overrides_example :
    (parse_serve_config (λ args. ok given_flags) (λ path. ok loaded) []
      ≡ ok (record loaded { backend = "memory" }))
    ↔ ((base : Config) × ((if flag_or "config" given_flags "" == ""
            then ok default_config
            else ok loaded)
          ≡ ok base)
        × Overrides given_flags base (record loaded { backend = "memory" }))
unfolding lookup
parse_serve_config-Overrides_example =
    parse_serve_config-Overrides (λ args. ok given_flags) (λ path. ok loaded) [] given_flags refl
      (refl, (refl, tt)) (record loaded { backend = "memory" })
