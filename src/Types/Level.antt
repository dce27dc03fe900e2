-- ===== src/Types/Level.antt =====
-- types/level.rs: levels and the metadata of a data file. The column statistics, which only go into
-- exported metadata, are left out.
use Prim.Native.String.{String}
use merutable.Prelude.{ℕ, ◌+◌, ◌%◌, ◌^◌, Option}
use merutable.Prelude.Int.{ℤ}
use merutable.Bytes.{Bytes}

-- `Level(u8)`
abbrev pub Level : Type 0
Level = ℕ

-- `Level::next`: on a u8
abbrev pub next_level : Level → Level
next_level l = (l + 1) % 2 ^ 8

pub data FileFormat : Type 0 where
  columnar dual : FileFormat

pub record ParquetFileMeta : Type 0 where
  pub level : Level
  pub seq_min : ℕ
  pub seq_max : ℕ
  pub key_min : Bytes
  pub key_max : Bytes
  pub num_rows : ℕ
  pub file_size : ℕ
  pub dv_path : Option String
  pub dv_offset : Option ℤ
  pub dv_length : Option ℤ
  pub format : Option FileFormat
