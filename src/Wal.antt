-- ===== src/Wal.antt =====
-- The write-ahead log: crates/merutable/src/wal.
pub mod Batch
pub mod Format
pub mod Log
pub mod Manager
mod Examples
