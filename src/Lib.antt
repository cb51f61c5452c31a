-- ===== src/Lib.antt =====
-- timongo: a server that speaks the MongoDB protocol. A command becomes one or more operations of a
-- store, and a store is either held in memory or kept in TiDB. What a filter, an update, a
-- projection, a sort, a pipeline and a schema mean is the matter of one package, internal/mql, which
-- every store calls.
--
-- Which file models what:
--   Value: the Go values in a document, and `asMap`, `asArray` and `truthy` of internal/mql/mql.go.
--   Mql: internal/mql/mql.go.
--     Compare (`equal`, `compare`, `ToFloat`, `isNumber`, `valueEquals`, `arrayContains`,
--     `addNumbers`), Path (`valueByPath`), Types (`matchesType`, `matchesBSONType`,
--     `matchesSingleBSONType`), Match (`Matches`, `matchValue`), Sort (`sortDocs`), Options
--     (`FindOptions`, `ApplyFindOptions`), Project (`project`, `addFields`, `unsetFields`, `unwind`),
--     Expr (`evalExpr`), Group (`group`), Pipeline (`ApplyPipeline`), Update (`ApplyUpdate`), Schema
--     (`ValidateJSONSchema`).
--   Bsonutil: internal/bsonutil/bsonutil.go, `ValueKey` and `DocumentIDKey`; Bsonutil/Normalize,
--     `normalizeValue`; Bsonutil/ExtJson, `MarshalExtJSON` and `UnmarshalExtJSON`.
--   Mongoerrors: internal/mongoerrors/errors.go.
--   Command (and Command/Laws): internal/command/registry.go, `Name`, `Register` and `Handle`.
--   Backend: internal/backend/backend.go, the requests and results, and the interface `Store` as the
--     record `BackendStore` of operations on a state; Backend/Calls, its calls as values.
--   Memory: internal/backend/memory/memory.go.
--     Store (the state, creating, listing and dropping collections), Insert, Read (`Find`, `Count`,
--     `Distinct`, `Aggregate`), Update, Delete, Indexes (`CreateIndexes`, `ListIndexes`), Keys (each
--     document under the key of its `_id`), Reach (histories of operations), Served (the store as an
--     implementation of `BackendStore`), Indexed (which namespaces have indexes), Maps (no key twice),
--     Effects (the contract of the interface, on a map from namespaces and keys to documents) and
--     Refines (the store keeps it).
--   Catalog: internal/catalog/catalog.go, the statements of `Bootstrap` and the loop that runs them.
--   Tidb: internal/backend/tidb. Schema is schema.go (`PhysicalTableName`, `DocumentTableDDL`), the
--     others are store.go.
--     Connection (what database/sql offers), FindSql (`BuildFindSQL`, `canPushDownFind`,
--     `canPushDownFilter`), Rows (the loops over the rows of a query), Read (`Find`, `Count`,
--     `Distinct`, `Aggregate`), Catalog (creating, listing and dropping collections, `DropDatabase`, and
--     the lookups in the catalog), Write (`Insert`, `Update`, `Delete`, `replaceDocument`), Indexes
--     (`CreateIndexes`, `ListIndexes`), Served (`NewStore`, and the store as an implementation of
--     `BackendStore`).
--   Handler: internal/handler/handler.go, `Handle`, over any `BackendStore`.
--     Arguments (how a command's fields are read: `requiredString`, `int64Value`, `splitNamespace`),
--     Replies (the replies that ask no store), Commands (one function per command), Calls (the calls
--     that each command may make, with a rule for each way to compose), InMemory (sessions of commands
--     on the store in memory), OnTidb (commands that read, on TiDB), Rename (`renameCollection`).
--   Wire: internal/wire/server.go, `HandleOpMsg`, `HandleOpQuery` and the replies of `serveConn`;
--     Wire/Values, `toBSOND`, `toDriverValue`, `normalizeDriverDoc` and `normalizeDriverValue`.
--   Config: internal/config/config.go and internal/config/file.go.
--   Tiup: internal/tiup/topology.go, `ParseTopology`; Tiup/Split, `SplitTopology` and `cloneNode`;
--     Tiup/Render, internal/tiup/render.go; Tiup/Render/Laws has internal/tiup/templates/
--     timongo.toml.tmpl as the settings that a TOML parser reads there.
--   Cli: cmd/timongo/main.go, `parseServeConfig` and `buildStore`; Cli/TiupCommands, `tiupCommand` with
--     its two commands.
--   Packaging: internal/packaging/bundle.go.
--   Status: internal/status/server.go, what the handler answers at each path.
--   Go: what the program takes from the machine, the Go runtime and the driver, as one record.
--   Prelude: lists, texts, integers, results and dictionaries.
--   Tests: the theorems at concrete inputs.
--
-- How the code is modelled:
--   A Go map is an association list with its entries in the order of one iteration (Prelude/Dict).
--   What holds of every list holds of every iteration order. A nil map is an empty one.
--   An operation of the store is a function from the store to the store and a result. The mutex makes
--   each operation one step, so a concurrent run is a sequence of steps (Memory/Reach).
--   An error is a value of `Result`, and so is a panic. An operation that fails returns the store as
--   the failed call left it.
--   Floats are a type `F` with the operations of the record `Go F`, and the texts that `fmt`, `strconv`
--   and the driver print are fields of the same record, as are regular expressions and the operators
--   on bits. `IsOrdered` says of the floats what IEEE 754 says: no two are each less than the other.
--   The time is a function `clock` from the index of an update to the times that it reads: one for
--   each document that it goes over, one for an upsert, and the nanoseconds of a new object id.
--   The code copies a document before it changes it, and a document of the model is a value, so
--   `CloneDoc` and `cloneDoc` are the identity.
--   `sort.SliceStable` is a stable insertion sort. The two have one result where the order is a strict
--   weak one, which `compare` is not on a field with numbers and texts in it.
--   Go goes over the groups of `$group` in any order: `in_range` of the record `Go F` is that order.
--   `Matches` and `evalExpr` recur into nested values, and are functions on the data types of Value
--   by structural recursion. Two functions of the model have fuel: the printing of a number, where the
--   number itself bounds its digits, and `rawSequenceToBSONArray`, where the number of bytes is enough
--   as long as `FindRaw` finds no empty document.
--   The library of the wire protocol and the driver's decoder are the record `Protocol` of Wire, the
--   driver's Extended JSON is the record `ExtJson` of Bsonutil/ExtJson, the file system is the record
--   `Os` of Cli/TiupCommands, and the TOML and YAML parsers, the parser of flags and the templates that
--   text/template has parsed are arguments of the functions that use them.
--   The connection to TiDB is the record `Connection` of Tidb/Connection: operations on a state of any
--   type that take the text of a statement, in characters, and its arguments. What SQL documents of the
--   statements is the record `Selects` of Tidb/Read/Shown for the queries of `Find`, and the record
--   `IsSql` of Tidb/Write/Tables for those that write a table of documents and for transactions, and
--   `ShowsTables` of Tidb/Catalog/Dropped for those of `DropDatabase`. The other clients of one database
--   are not modelled: between the statements of one operation nobody else writes. The rows of a query
--   are read to the end, so the order of `rows.Close` and of what follows does not matter.
--   A command is a computation on the state of a store that may fail (Prelude/Calls): what it wrote
--   before an error stays written. The handler knows the store by `BackendStore` alone, as in the
--   code, and `memory_store` of Memory/Served fills it, with the number of updates so far as the index
--   of the clock.
--
-- Not modelled: `main`, `serve` and `usage` of cmd/timongo/main.go, the loops of the wire server that
--   accept connections and move bytes, and `ListenAndServe` of the status server: they start servers,
--   wait for signals and move bytes. Nor are contexts, which the code only passes on.
--   The memory that arrays share is not modelled: an array of the model is a value. `CloneDoc` copies
--   the fields of a document and not the arrays in them, and one `$set` of many documents gives all of
--   them one array, so that a `$push` with `$sort`, or an `append` of `$push` or `$addToSet` behind a
--   `$pop`, can write into an array of another document. The theorems that say what an update leaves
--   as it was in other documents therefore leave `$push` and `$addToSet` out (`leaves_arrays`).
pub mod Prelude
pub mod Value
pub mod Go
pub mod Mql
pub mod Bsonutil
pub mod Backend
pub mod Mongoerrors
pub mod Command
pub mod Memory
pub mod Tidb
pub mod Handler
pub mod Wire
pub mod Config
pub mod Tiup
pub mod Cli
pub mod Packaging
pub mod Status
pub mod Tests
pub mod Catalog
