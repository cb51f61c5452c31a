-- ===== src/Memory.antt =====
-- internal/backend/memory: the store that keeps its documents in Go maps.
--
-- Every operation holds the store's lock from its start to its end, so each is one step on the
-- state. An operation that can fail returns the new state beside the result, since what was
-- written before an error stays written.
pub mod Store
pub mod Insert
pub mod Read
pub mod Update
pub mod Delete
pub mod Indexes
pub mod Keys
pub mod Reach
pub mod Served
pub mod Indexed
pub mod Maps
pub mod Effects
pub mod Refines
