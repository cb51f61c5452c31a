-- ===== src/Status.antt =====
-- internal/status/server.go: the replies of the status server. The package net/http is not modelled.
use text.Mathlib.Text.{◌==◌}
use timongo.Prelude.{String, ℕ, Option, none, some, if◌then◌else◌, Result, ok, err, panic}
use timongo.Prelude.Text.{◌+++◌}
use timongo.Mongoerrors.{error_text}

pub record HttpReply : Type 0 where
  pub content_type : String
  pub status : ℕ
  pub body : String

abbrev healthy : HttpReply
healthy = record { content_type = "application/json"; status = 200; body = "{\"ok\":true}" }

-- The handler of `/ready`, by what the check returns; `quote` is the verb `%q`. `none` is a panic.
unfoldable pub ready_reply : (String → String) → Result (Unit {0}) → Option HttpReply
ready_reply quote (ok u) = some healthy
ready_reply quote (err e) = some (record {
  content_type = "application/json";
  status = 503;
  body = "{\"ok\":false,\"error\":" +++ quote (error_text e) +++ "}";
})
ready_reply quote panic = none

-- What `NewHandler(ready)` answers at its three paths; `none` is another path.
unfoldable pub status_reply :
    (String → String) → Result (Unit {0}) → String → Option (Option HttpReply)
unfolding ready_reply
status_reply quote ready path =
    if path == "/health"
    then some (some healthy)
    else if path == "/ready"
    then some (ready_reply quote ready)
    else if path == "/metrics"
    then some (
        some (record {
          content_type = "text/plain; version=0.0.4";
          status = 200;
          body = "# timongo metrics are initialized in M1\n";
        }))
    else none
