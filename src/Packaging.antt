-- ===== src/Packaging.antt =====
-- internal/packaging/bundle.go: what the offline bundle holds, and the command lines that make it.
use text.Mathlib.Text.{◌==◌}
use timongo.Prelude.{String, Bool, List, [], ◌∷◌, ◌++◌, any}
use timongo.Prelude.Text.{◌+++◌}

pub record BundleSpec : Type 0 where
  pub tidb_version : String
  pub timongo_version : String
  pub os : String
  pub arch : String
  pub tidb_components : List String
  pub tiup_components : List String
  pub toolkit_includes : List String

-- `DefaultBundleSpec()`
abbrev pub default_bundle_spec : BundleSpec
default_bundle_spec = record {
  tidb_version = "v8.5.6";
  timongo_version = "dev";
  os = "linux";
  arch = "amd64";
  tidb_components =
      "tidb" ∷ "tikv" ∷ "pd" ∷ "tiflash" ∷ "prometheus" ∷ "grafana" ∷ "alertmanager"
      ∷ "node_exporter" ∷ "blackbox_exporter" ∷ [];
  tiup_components = "tiup" ∷ "cluster" ∷ [];
  toolkit_includes = "br" ∷ "cdc" ∷ "dumpling" ∷ "tidb-lightning" ∷ "sync-diff-inspector" ∷ [];
}

-- `IncludesComponent(component)`
unfoldable pub includes_component : BundleSpec → String → Bool
includes_component spec component =
    any (λ got. got == component) (spec.tidb_components ++ spec.tiup_components)

-- `Layout()`
abbrev pub layout : List String
layout =
    "README.md" ∷ "bin/timongo-server" ∷ "manifest/timongo-bundle.json" ∷ "tiup/mirror"
    ∷ "tiup/components/timongo/timongo-component.tar.gz" ∷ "tiup/examples/topology.yaml"
    ∷ "tiup/templates/timongo.toml.tmpl" ∷ "tiup/templates/timongo.service.tmpl"
    ∷ "tiup/templates/haproxy.cfg.tmpl" ∷ "scripts/install-local-mirror.sh"
    ∷ "scripts/deploy-all.sh" ∷ "scripts/deploy-tidb-cluster.sh" ∷ "scripts/deploy-timongo.sh" ∷ []

-- `Includes(path)`
unfoldable pub includes : List String → String → Bool
includes paths path = any (λ got. got == path) paths

-- `MirrorCloneArgs(targetDir)`
abbrev pub mirror_clone_args : BundleSpec → String → List String
mirror_clone_args spec target_dir =
    "mirror"
    ∷ "clone"
    ∷ target_dir
    ∷ spec.tidb_version
    ∷ ("--os=" +++ spec.os)
    ∷ ("--arch=" +++ spec.arch)
    ∷ []

-- `PublishTimongoArgs(tarball, privateKey)`
abbrev pub publish_timongo_args : BundleSpec → String → String → List String
publish_timongo_args spec tarball private_key =
    "mirror"
    ∷ "publish"
    ∷ "timongo"
    ∷ spec.timongo_version
    ∷ tarball
    ∷ "timongo-server"
    ∷ "--standalone"
    ∷ ("--os=" +++ spec.os)
    ∷ ("--arch=" +++ spec.arch)
    ∷ ("--key=" +++ private_key)
    ∷ ("--desc=timongo MongoDB 6.0 compatible gateway for TiDB " +++ spec.tidb_version)
    ∷ []
