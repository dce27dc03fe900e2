-- ===== src/Types.antt =====
-- The data model of crates/merutable/src/types.
pub mod Sequence
pub mod Value
pub mod Schema
pub mod Level
pub mod Row
pub mod Key
mod Examples
