-- ===== src/Tidb/Connection.antt =====
-- What internal/backend/tidb and internal/catalog call of database/sql: the connection to TiDB is a
-- parameter, over the state `C` of what the server holds.
use timongo.Prelude.{String, ℕ, List, Result, Option}
use timongo.Prelude.Int.{ℤ}
use timongo.Prelude.Calls.{Call}
use timongo.Value.{Value}

-- An argument of a statement: a value, or a text that the store puts together, by its code points.
pub data Argument (F : Type 0) : Type 0 where
  value : Value F → Argument F
  text : List ℕ → Argument F

-- A statement, by its code points, and its arguments.
abbrev pub Statement : Type 0 → Type 0
Statement F = List ℕ × List (Argument F)

-- What the loop over `rows.Next()` sees: rows, each as `Scan` reads it, and at the end `rows.Err()`.
pub data Rows (A : Type 0) : Type 0 where
  last : Result (Unit {0}) → Rows A
  row : Result A → Rows A → Rows A

pub record Connection (F C : Type 0) : Type 0 where
  -- `db.ExecContext`
  pub exec : Statement F → Call C (Unit {0})
  -- `db.QueryContext`, by what the code scans a row into: one text, or a text and a text
  pub query : Statement F → C → Result (Rows String)
  pub query_pairs : Statement F → C → Result (Rows (String × String))
  -- `db.QueryRowContext(...).Scan(...)` into a text and into a number; `none` is `sql.ErrNoRows`
  pub query_text : Statement F → C → Result (Option String)
  pub query_number : Statement F → C → Result (Option ℤ)
  -- `db.BeginTx`, `tx.ExecContext`, `tx.Commit` and `tx.Rollback`, whose error the code ignores
  pub begin : Call C (Unit {0})
  pub tx_exec : Statement F → Call C (Unit {0})
  pub commit : Call C (Unit {0})
  pub rollback : C → C
  -- `db.Ping` and `db.Close`
  pub ping : C → Result (Unit {0})
  pub close : Call C (Unit {0})
