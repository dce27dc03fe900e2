-- ===== src/Engine/Config.antt =====
-- engine/config.rs: the tuning parameters of the engine.
use Prim.Native.String.{String}
use merutable.Types.Schema.{TableSchema}
use merutable.Types.Level.{Level, FileFormat}
use merutable.Prelude.{ℕ, Bool, List, Option, none, some, leb, if◌then◌else◌}

pub record EngineConfig : Type 0 where
  pub schema : TableSchema
  pub catalog_uri : String
  pub object_store_prefix : String
  pub wal_dir : String
  pub memtable_size_bytes : ℕ
  pub max_immutable_count : ℕ
  pub row_cache_capacity : ℕ
  pub level_target_bytes : List ℕ
  pub l0_compaction_trigger : ℕ
  pub l0_slowdown_trigger : ℕ
  pub l0_stop_trigger : ℕ
  pub bloom_bits_per_key : ℕ
  pub max_compaction_bytes : ℕ
  pub max_compaction_input_rows : ℕ
  pub flush_parallelism : ℕ
  pub compaction_parallelism : ℕ
  pub read_only : Bool
  pub gc_grace_period_secs : ℕ
  pub dual_format_max_level : Option ℕ
  pub enable_flush_dv_emission : Bool

-- `EngineConfig::file_format_for`
unfoldable pub file_format_for : EngineConfig → Level → FileFormat
file_format_for config output_level = elim config.dual_format_max_level [
  | some max ↦ if leb output_level max then FileFormat.dual else FileFormat.columnar
  | none ↦ FileFormat.columnar
]
