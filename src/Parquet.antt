-- ===== src/Parquet.antt =====
-- Parts of the data files: crates/merutable/src/parquet.
pub mod Bloom
pub mod KvIndex
