-- ===== src/Mql.antt =====
-- internal/mql: the query and update language.
pub mod Compare
pub mod Path
pub mod Types
pub mod Match
pub mod Sort
pub mod Update
pub mod Expr
pub mod Project
pub mod Options
pub mod Group
pub mod Pipeline
pub mod Schema
