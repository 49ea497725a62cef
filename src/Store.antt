-- ===== src/Store.antt =====
-- internal/store: the append-only record store.
pub mod Result
pub mod Bytes
pub mod Segment
pub mod FileStore
pub mod Rebuild
pub mod Snapshot
pub mod Exec
pub mod Ops
pub mod Log
pub mod Listing
pub mod Iterate
pub mod Compact
pub mod Open
pub mod Invariant
pub mod Durable
pub mod Examples
