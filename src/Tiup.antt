-- ===== src/Tiup.antt =====
-- internal/tiup/topology.go: the sections of a topology file that are about timongo. The YAML
-- library is a parameter.
pub mod Split
pub mod Render
use text.Mathlib.Text.{◌==◌}
use timongo.Prelude.{
  arith, String, ℕ, zero, suc, Bool, true, false, List, [], ◌∷◌, Option, none, some, if◌then◌else◌,
  ◌&&◌, true_left, true_right, not, all, ◌++◌, ◌+◌, length, ◌∙◌, ap, ◌≡◌, refl, Result, ok, err,
  ◌>>=◌, ◌>>◌, Error, library_error,
}
use timongo.Prelude.Int.{ℤ, pos, eqb_ℤ}
use timongo.Prelude.Text.{◌+++◌, print_ℤ}

pub record Global : Type 0 where
  pub user : String
  pub deploy_dir : String
  pub data_dir : String

pub record TimongoConfig : Type 0 where
  pub compat_version : String
  pub stateless : Bool
  pub cursor_ttl : String
  pub session_ttl : String
  pub transaction_timeout : String
  pub max_connections : ℤ
  pub tidb_max_open_conns : ℤ

pub record TimongoServer : Type 0 where
  pub host : String
  pub port : ℤ
  pub status_port : ℤ
  pub deploy_dir : String
  pub log_dir : String
  pub tidb_host : String
  pub tidb_port : ℤ
  pub config : TimongoConfig

pub record TimongoLbServer : Type 0 where
  pub host : String
  pub port : ℤ
  pub status_port : ℤ
  pub balance : String
  pub backend_role : String

pub record Topology : Type 0 where
  pub global : Global
  pub timongo_servers : List TimongoServer
  pub timongo_lb_servers : List TimongoLbServer

-- The first field that a server lacks, in the order of the checks.
unfoldable pub missing_field : TimongoServer → Option String
missing_field server =
    if server.host == ""
    then some "host"
    else if eqb_ℤ server.port (pos 0)
    then some "port"
    else if eqb_ℤ server.status_port (pos 0)
    then some "status_port"
    else if server.tidb_host == ""
    then some "tidb_host"
    else if eqb_ℤ server.tidb_port (pos 0)
    then some "tidb_port"
    else none

abbrev pub required : ℕ → String → Error
required i name =
    library_error ("timongo_servers[" +++ print_ℤ (pos i) +++ "]." +++ name +++ " is required")

-- The loop over the servers, from the index `i`.
unfoldable pub check_servers : ℕ → List TimongoServer → Result (Unit {0})
check_servers i [] = ok tt
check_servers i (server ∷ servers) =
    let rest = check_servers (suc i) servers in
    elim (missing_field server) [ none ↦ rest | some name ↦ err (required i name) ]

-- `ParseTopology(raw)`
unfoldable pub parse_topology : (List ℕ → Result Topology) → List ℕ → Result Topology
unfolding check_servers
parse_topology unmarshal raw = do
  topo ← unmarshal raw
  check_servers 0 topo.timongo_servers
  ok topo

-- The five fields that a server needs, in the order in which they are asked for, and whether it has
-- them: a text that is not empty, a number that is not zero.
abbrev pub needed : TimongoServer → List (String × Bool)
needed server =
    ("host", not (server.host == ""))
    ∷ ("port", not (eqb_ℤ server.port (pos 0)))
    ∷ ("status_port", not (eqb_ℤ server.status_port (pos 0)))
    ∷ ("tidb_host", not (server.tidb_host == ""))
    ∷ ("tidb_port", not (eqb_ℤ server.tidb_port (pos 0)))
    ∷ []

abbrev pub is_complete : TimongoServer → Bool
is_complete server = all (λ f. f.1) (needed server)

abbrev pub first_lacking : List (String × Bool) → Option String
first_lacking [] = none
first_lacking ((name, has_it) ∷ fields) = if has_it then first_lacking fields else some name

missing_field-lem : (server : TimongoServer) → missing_field server ≡ first_lacking (needed server)
unfolding missing_field
missing_field-lem server = ground arith

missing_none : (server : TimongoServer) → is_complete server ≡ true → missing_field server ≡ none
missing_none server h = missing_field-lem server ∙ ground arith

check_servers_complete :
    (i : ℕ) (servers : List TimongoServer)
    → all is_complete servers ≡ true
    → check_servers i servers ≡ ok tt
unfolding check_servers
check_servers_complete i [] h = refl
check_servers_complete i (server ∷ servers) h =
    rw
      (
        missing_none server (true_left (is_complete server) (all is_complete servers) h),
        check_servers,
      )
      (check_servers_complete (suc i) servers (true_right (is_complete server) _ h))

check_servers_first :
    (i : ℕ) (front rest : List TimongoServer) (server : TimongoServer) (name : String)
    → all is_complete front ≡ true
    → missing_field server ≡ some name
    → check_servers i (front ++ server ∷ rest) ≡ err (required (i + length front) name)
unfolding check_servers
check_servers_first i [] rest server name h e =
    rw (e, check_servers) (ap (λ n. err (required n name)) (omega arith))
check_servers_first i (s ∷ front) rest server name h e =
    rw (missing_none s (true_left (is_complete s) (all is_complete front) h), check_servers)
      (check_servers_first (suc i) front rest server name (true_right (is_complete s) _ h) e
        ∙ ap (λ n. err (required n name)) (omega arith))

-- A topology that parses is accepted if each of its servers has its five required fields. If some
-- server lacks one, the error names the index of the first such server and the first field that it
-- lacks.
pub parse_topology-lem :
    (unmarshal : List ℕ → Result Topology) (raw : List ℕ) (topo : Topology)
    → unmarshal raw ≡ ok topo
    → (all is_complete topo.timongo_servers ≡ true → parse_topology unmarshal raw ≡ ok topo)
      × ((front rest : List TimongoServer) (server : TimongoServer) (name : String)
          → topo.timongo_servers ≡ front ++ server ∷ rest
          → all is_complete front ≡ true
          → first_lacking (needed server) ≡ some name
          → parse_topology unmarshal raw ≡ err (required (length front) name))
unfolding parse_topology
parse_topology-lem unmarshal raw topo e = (
  λ complete. rw (e, check_servers_complete 0 topo.timongo_servers complete) refl,
  λ front rest server name split complete lacks.
      rw
        (
          e,
          split,
          check_servers_first 0 front rest server name complete (missing_field-lem server ∙ lacks),
        )
        (ap (λ n. err (required n name)) (omega arith)),
)
