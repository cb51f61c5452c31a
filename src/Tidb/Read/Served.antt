-- ===== src/Tidb/Read/Served.antt =====
-- internal/backend/tidb/store.go: `Count`, `Distinct` and `Aggregate`, over `Find`.
use timongo.Value.{Value}
use timongo.Go.{Go}
use timongo.Bsonutil.ExtJson.{ExtJson}
use timongo.Memory.Store.{Store}
use timongo.Tidb.Connection.{Connection}
