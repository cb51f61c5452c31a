-- ===== src/Cli/TiupCommands.antt =====
-- cmd/timongo/main.go: `timongo tiup`, over a file system that is a parameter.
use text.Mathlib.Text.{◌==◌}
use timongo.Prelude.{
  String, ℕ, List, [], ◌∷◌, ◌++◌, if◌then◌else◌, ◌||◌, some, Result, err, library_error,
}
use timongo.Prelude.Text.{◌+++◌}
use timongo.Prelude.Calls.{Call, ◌>>=◌, ◌>>◌, lift, done}
use timongo.Prelude.Dict.{Dict}
use timongo.Tiup.{Topology, parse_topology}
use timongo.Tiup.Render.{Templates, RenderedFiles, render_timongo_files}
use timongo.Cli.{Flags, flag_or}

-- `os.ReadFile`, `os.WriteFile` with the mode 0600, `os.MkdirAll`, `filepath.Join` and `[]byte(s)`.
pub record Os (W : Type 0) : Type 0 where
  pub read_file : String → W → Result (List ℕ)
  pub write_file : String → List ℕ → Call W (Unit {0})
  pub make_dirs : String → Call W (Unit {0})
  pub join : String → String → String
  pub utf8 : String → List ℕ

module _ {W : Type 0} (os : Os W) (parse : List String → Result Flags) where
  -- `runTiUPSplitTopology(args)`, by `SplitTopology`.
  unfoldable pub split_topology_command :
      (List ℕ → Result (List ℕ × List ℕ)) → List String → Call W (Unit {0})
  split_topology_command split_topology args = do
    flags ← lift (parse args)
    let input = flag_or "input" flags ""
    let tidb_output = flag_or "tidb-output" flags ""
    let timongo_output = flag_or "timongo-output" flags ""
    if input == "" || tidb_output == "" || timongo_output == ""
        then lift (err (library_error "-input, -tidb-output, and -timongo-output are required"))
        else do
          raw ← λ w. (w, os.read_file input w)
          parts ← lift (split_topology raw)
          os.write_file tidb_output parts.0
          os.write_file timongo_output parts.1

  abbrev host_line : String → RenderedFiles → List ℕ
  host_line host rendered =
      os.utf8 (host +++ "\t" +++ rendered.deploy_dir +++ "\t" +++ rendered.log_dir +++ "\n")

  -- The loop over the hosts: the lines of `hosts.tsv`.
  unfoldable pub write_hosts : String → Dict RenderedFiles → List ℕ → Call W (List ℕ)
  write_hosts output [] lines = done lines
  write_hosts output ((host, rendered) ∷ files) lines = do
    let host_dir = os.join output host
    os.make_dirs host_dir
    os.write_file (os.join host_dir "timongo.toml") (os.utf8 rendered.config)
    os.write_file (os.join host_dir "timongo.service") (os.utf8 rendered.service)
    write_hosts output files (lines ++ host_line host rendered)

  -- `runTiUPRenderTimongo(args)`
  unfoldable pub render_timongo_command :
      (List ℕ → Result Topology) → Templates → List String → Call W (Unit {0})
  unfolding write_hosts
  render_timongo_command unmarshal templates args = do
    flags ← lift (parse args)
    let input = flag_or "input" flags ""
    let output = flag_or "output" flags ""
    if input == "" || output == ""
        then lift (err (library_error "-input and -output are required"))
        else do
          raw ← λ w. (w, os.read_file input w)
          topo ← lift (parse_topology unmarshal raw)
          files ← lift (render_timongo_files templates (some topo))
          os.make_dirs output
          lines ← write_hosts output files []
          os.write_file (os.join output "hosts.tsv") lines

-- `tiupCommand(args)`, by its two subcommands.
unfoldable pub tiup_command :
    {W : Type 0}
    → (String → String)
    → (List String → Call W (Unit {0}))
    → (List String → Call W (Unit {0}))
    → List String
    → Call W (Unit {0})
tiup_command quote split_topology render_timongo [] =
    lift (err (library_error "usage: timongo tiup <split-topology|render-timongo> [flags]"))
tiup_command quote split_topology render_timongo (name ∷ args) =
    if name == "split-topology"
    then split_topology args
    else if name == "render-timongo"
    then render_timongo args
    else lift (err (library_error ("unknown tiup subcommand " +++ quote name)))
