-- ===== src/Handler/Replies.antt =====
-- internal/handler/handler.go: the replies of `Handle` that ask no store, and the shape of the
-- others. A `bson.M` in a reply that is nil is an empty one.
use text.Mathlib.Text.{◌==◌}
use timongo.Prelude.{String, true, List, [], ◌∷◌, Option, none, some, if◌then◌else◌, map}
use timongo.Prelude.Int.{pos}
use timongo.Prelude.Text.{◌+++◌}
use timongo.Value.{Value, bool, str, int32, int64, float64, Doc, of_doc, of_list}
use timongo.Go.{Go}
use timongo.Mql.Schema.{text_or_empty}
use timongo.Mql.Update.Operators.{get}

-- The commands that `Handle` answers by itself.
pub data Fixed : Type 0 where
  hello ping build_info server_status connection_status db_stats coll_stats host_info : Fixed
  get_cmd_line_opts get_parameter current_op top profile list_commands users_info : Fixed
  roles_info get_default_rw_concern validate plan_cache_clear explain coll_mod : Fixed
  list_databases : Fixed

unfoldable pub fixed_command : String → Option Fixed
fixed_command name =
    if name == "hello"
    then some Fixed.hello
    else if name == "isMaster"
    then some Fixed.hello
    else if name == "ismaster"
    then some Fixed.hello
    else if name == "ping"
    then some Fixed.ping
    else if name == "buildInfo"
    then some Fixed.build_info
    else if name == "serverStatus"
    then some Fixed.server_status
    else if name == "connectionStatus"
    then some Fixed.connection_status
    else if name == "dbStats"
    then some Fixed.db_stats
    else if name == "collStats"
    then some Fixed.coll_stats
    else if name == "hostInfo"
    then some Fixed.host_info
    else if name == "getCmdLineOpts"
    then some Fixed.get_cmd_line_opts
    else if name == "getParameter"
    then some Fixed.get_parameter
    else if name == "currentOp"
    then some Fixed.current_op
    else if name == "top"
    then some Fixed.top
    else if name == "profile"
    then some Fixed.profile
    else if name == "listCommands"
    then some Fixed.list_commands
    else if name == "usersInfo"
    then some Fixed.users_info
    else if name == "rolesInfo"
    then some Fixed.roles_info
    else if name == "getDefaultRWConcern"
    then some Fixed.get_default_rw_concern
    else if name == "validate"
    then some Fixed.validate
    else if name == "planCacheClear"
    then some Fixed.plan_cache_clear
    else if name == "explain"
    then some Fixed.explain
    else if name == "collMod"
    then some Fixed.coll_mod
    else if name == "listDatabases"
    then some Fixed.list_databases
    else none

module _ {F : Type 0} ⦃go : Go F⦄ where
  abbrev pub ok_reply : Doc F → Doc F
  ok_reply rest = ("ok", float64 (go.of_int (pos 1))) ∷ rest

  abbrev empty_doc : Value F
  empty_doc = of_doc []

  abbrev pub ns_of : Doc F → Value F → String
  ns_of cmd value = text_or_empty (get "$db" cmd) +++ "." +++ text_or_empty value

  unfoldable pub fixed_reply : Fixed → Doc F → Value F → Doc F
  fixed_reply Fixed.hello cmd value = ok_reply (
      ("isWritablePrimary", bool true)
      ∷ ("ismaster", bool true)
      ∷ ("minWireVersion", int32 (pos 0))
      ∷ ("maxWireVersion", int32 (pos 21))
      ∷ ("maxBsonObjectSize", int32 (pos 16777216))
      ∷ ("maxMessageSizeBytes", int32 (pos 48000000))
      ∷ ("maxWriteBatchSize", int32 (pos 100000))
      ∷ [])
  fixed_reply Fixed.ping cmd value = ok_reply []
  fixed_reply Fixed.build_info cmd value =
      ok_reply (("version", str "0.1.0") ∷ ("gitVersion", str "timongo-mvp") ∷ [])
  fixed_reply Fixed.server_status cmd value =
      ok_reply
        (("version", str "0.1.0") ∷ ("timongo", of_doc (("compatVersion", str "6.0") ∷ [])) ∷ [])
  fixed_reply Fixed.connection_status cmd value = ok_reply (
      (
        "authInfo",
        of_doc (("authenticatedUsers", of_list []) ∷ ("authenticatedUserRoles", of_list []) ∷ []),
      )
      ∷ [])
  fixed_reply Fixed.db_stats cmd value = ok_reply (
      ("db", get "$db" cmd)
      ∷ ("collections", int32 (pos 0))
      ∷ ("objects", int32 (pos 0))
      ∷ ("dataSize", int64 (pos 0))
      ∷ ("storageSize", int64 (pos 0))
      ∷ ("indexes", int32 (pos 0))
      ∷ ("indexSize", int64 (pos 0))
      ∷ [])
  fixed_reply Fixed.coll_stats cmd value = ok_reply (
      ("ns", str (ns_of cmd value))
      ∷ ("count", int64 (pos 0))
      ∷ ("size", int64 (pos 0))
      ∷ ("storageSize", int64 (pos 0))
      ∷ ("nindexes", int32 (pos 1))
      ∷ [])
  fixed_reply Fixed.host_info cmd value = ok_reply (
      ("system", of_doc (("hostname", str "timongo") ∷ ("cpuAddrSize", int32 (pos 64)) ∷ []))
      ∷ ("os", of_doc (("type", str "unknown") ∷ []))
      ∷ [])
  fixed_reply Fixed.get_cmd_line_opts cmd value =
      ok_reply (("argv", of_list []) ∷ ("parsed", empty_doc) ∷ [])
  fixed_reply Fixed.get_parameter cmd value =
      ok_reply (("featureCompatibilityVersion", of_doc (("version", str "6.0") ∷ [])) ∷ [])
  fixed_reply Fixed.current_op cmd value = ok_reply (("inprog", of_list []) ∷ [])
  fixed_reply Fixed.top cmd value = ok_reply (("totals", empty_doc) ∷ [])
  fixed_reply Fixed.profile cmd value = ok_reply (("was", int32 (pos 0)) ∷ [])
  fixed_reply Fixed.list_commands cmd value = ok_reply (("commands", empty_doc) ∷ [])
  fixed_reply Fixed.users_info cmd value = ok_reply (("users", of_list []) ∷ [])
  fixed_reply Fixed.roles_info cmd value = ok_reply (("roles", of_list []) ∷ [])
  fixed_reply Fixed.get_default_rw_concern cmd value =
      ok_reply (("defaultReadConcern", empty_doc) ∷ ("defaultWriteConcern", empty_doc) ∷ [])
  fixed_reply Fixed.validate cmd value =
      ok_reply (("valid", bool true) ∷ ("ns", str (ns_of cmd value)) ∷ [])
  fixed_reply Fixed.plan_cache_clear cmd value = ok_reply []
  fixed_reply Fixed.explain cmd value = ok_reply (
      (
        "queryPlanner",
        of_doc (
            ("namespace", str (text_or_empty (get "$db" cmd)))
            ∷ ("winningPlan", of_doc (("stage", str "TIMONGO_SCAN") ∷ []))
            ∷ []),
      )
      ∷ [])
  fixed_reply Fixed.coll_mod cmd value = ok_reply []
  fixed_reply Fixed.list_databases cmd value =
      ok_reply (("databases", of_list []) ∷ ("totalSize", int64 (pos 0)) ∷ [])

  -- `toBSONArray(docs)`
  abbrev pub to_bson_array : List (Doc F) → Value F
  to_bson_array ds = of_list (map of_doc ds)

  -- A cursor that is at its end: every document is in the first batch.
  abbrev pub cursor_reply : String → Value F → Doc F
  cursor_reply ns batch = ok_reply (
      ("cursor", of_doc (("id", int64 (pos 0)) ∷ ("ns", str ns) ∷ ("firstBatch", batch) ∷ [])) ∷ [])
