-- ===== src/Tidb.antt =====
-- internal/backend/tidb: the store that keeps its documents in TiDB.
pub mod Schema
pub mod Connection
pub mod FindSql
pub mod Rows
pub mod Read
pub mod Catalog
pub mod Write
pub mod Indexes
pub mod Served
