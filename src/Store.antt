-- ===== src/Store.antt =====
-- internal/store: the captured entries.
pub mod Entry
pub mod Events
pub mod Disk
pub mod Blobs
pub mod Memory
pub mod Result
pub mod Rows
pub mod Sqlite
pub mod Ids
pub mod Action
pub mod Ops
