-- ===== src/Memtable.antt =====
-- The in-memory tables: crates/merutable/src/memtable.
pub mod SkipMap
pub mod Skiplist
pub mod Table
pub mod Manager
mod Examples
