-- ===== src/Engine.antt =====
-- Parts of the engine: crates/merutable/src/engine.
pub mod Cache
pub mod Compaction
mod Examples
pub mod Config
pub mod Picker
pub mod Job
pub mod ReadPath
pub mod Codec
pub mod WritePath
