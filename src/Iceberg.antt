-- ===== src/Iceberg.antt =====
-- The state of the tree of files: crates/merutable/src/iceberg.
pub mod DeletionVector
pub mod Version
pub mod Snapshot
pub mod Manifest
mod Examples
