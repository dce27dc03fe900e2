-- ===== src/Engine/Picker/Examples.antt =====
-- The compaction picker (engine/compaction/picker.rs) on two levels of files.
use Prim.Native.String.{String}
use merutable.Engine.Config.{EngineConfig}
use merutable.Engine.Picker.{
  Float, CompactionPick, contains, level_is_free, improve, level_score, consider, score_levels,
  l0_score, best_candidate, force_l0, choose_level, pick_compaction, input_files_at, candidates,
  take_files, would_exceed, sort_by_seq, insert_by_seq,
}
use merutable.Engine.Picker.Selection.{
  take_files-within, take_files-maximal, Fits, bytes_in, rows_in, Blocked,
}
use merutable.Engine.Picker.Oldest.{input_files-oldest}
use merutable.Engine.Picker.Pressure.{pick_compaction-highest}
use merutable.Engine.Picker.Jobs.{
  reserve_next_compaction, reserve_level, IsConsistent, Reached-IsConsistent, idle, one_more, start,
}
use merutable.Iceberg.Version.{
  DataFileMeta, Version, files_at, files_of, l0_file_count, level_bytes, sum_sizes,
}
use merutable.Prelude.{
  ℕ, true, false, List, [], ◌∷◌, ◌++◌, none, some, ◌≡◌, ◌≢◌, ◌<◌, ◌≤◌, ◌*◌, ◌/◌, ltb, arith, refl,
  All, map, length, get_elem?, ◌+◌, ◌%◌, ◌^◌, ◌⊎◌,
}
use merutable.Types.Level.{next_level}
use merutable.Prelude.Int.{pos}
use mathlib.Core.List.{Perm}

less_irrefl_lem : (a : ℕ) → ltb a a ≡ false
less_irrefl_lem a = ground arith

less_trans_lem : (a b c : ℕ) → ltb a b ≡ true → ltb b c ≡ true → ltb a c ≡ true
less_trans_lem a b c p q = ground arith

-- Hundredths
abbrev hundredths : Float
hundredths = record {
  F = ℕ;
  of_int = λ n. n;
  div = λ a b. a * 100 / b;
  less = ltb;
  zero_f = 0;
  one_f = 100;
  less_irrefl = less_irrefl_lem;
  less_trans = less_trans_lem;
}

abbrev data_file : String → ℕ → ℕ → DataFileMeta
data_file path seq size = record {
  path = path;
  meta = record {
    level = 0;
    seq_min = seq;
    seq_max = seq + 9;
    key_min = 1 ∷ [];
    key_max = 9 ∷ [];
    num_rows = 10;
    file_size = size;
    dv_path = none;
    dv_offset = none;
    dv_length = none;
    format = none;
  };
  dv_path = none;
  dv_offset = none;
  dv_length = none;
}

abbrev config : EngineConfig
config = record {
  schema = record {
    table_name = "t";
    columns = [];
    primary_key = [];
    schema_id = 0;
    last_column_id = 0;
  };
  catalog_uri = "";
  object_store_prefix = "";
  wal_dir = "wal";
  memtable_size_bytes = 100;
  max_immutable_count = 4;
  row_cache_capacity = 10;
  level_target_bytes = 50 ∷ 500 ∷ [];
  l0_compaction_trigger = 2;
  l0_slowdown_trigger = 20;
  l0_stop_trigger = 36;
  bloom_bits_per_key = 10;
  max_compaction_bytes = 120;
  max_compaction_input_rows = 0;
  flush_parallelism = 1;
  compaction_parallelism = 2;
  read_only = false;
  gc_grace_period_secs = 0;
  dual_format_max_level = some 0;
  enable_flush_dv_emission = true;
}

abbrev three_files : List DataFileMeta
three_files = data_file "c" 30 40 ∷ data_file "a" 10 50 ∷ data_file "b" 20 60 ∷ []

abbrev version : Version
version = record {
  snapshot_id = pos 1;
  levels = (0, three_files) ∷ (1, data_file "d" 1 90 ∷ []) ∷ [];
  schema = config.schema;
}

abbrev two_oldest : CompactionPick ℕ
two_oldest = record { input_level = 1; output_level = 2; score = 180; input_files = "d" ∷ [] }

picked : pick_compaction hundredths version config [] ≡ some two_oldest
unfolding pick_compaction choose_level best_candidate score_levels consider improve level_score
    l0_score force_l0 l0_file_count level_bytes sum_sizes level_is_free contains input_files_at
    candidates take_files would_exceed sort_by_seq insert_by_seq files_at files_of
picked = refl

-- With level 1 busy no level is free that has pressure.
none_picked : pick_compaction hundredths version config (1 ∷ []) ≡ none
unfolding pick_compaction choose_level best_candidate score_levels consider improve level_score
    l0_score force_l0 l0_file_count level_bytes sum_sizes level_is_free contains input_files_at
    candidates take_files would_exceed sort_by_seq insert_by_seq files_at files_of
none_picked = refl

oldest_first : map (λ (g : DataFileMeta). g.path) (input_files_at config version 0) ≡ "a" ∷ "b" ∷ []
unfolding input_files_at candidates take_files would_exceed sort_by_seq insert_by_seq files_at
    files_of
oldest_first = refl

take_files-within_example :
    (length (take_files config true 0 0 three_files) ≤ 1)
    ⊎ Fits config
        (bytes_in (take_files config true 0 0 three_files))
        (rows_in (take_files config true 0 0 three_files))
take_files-within_example = take_files-within config three_files (omega arith) (omega arith)

take_files-maximal_example :
    ((rest : List DataFileMeta) × (three_files ≡ take_files config true 0 0 three_files ++ rest)
      × Blocked config
          (bytes_in (take_files config true 0 0 three_files))
          (rows_in (take_files config true 0 0 three_files))
          rest)
    × ((take_files config true 0 0 three_files ≡ []) → three_files ≡ [])
take_files-maximal_example = take_files-maximal config three_files

input_files-oldest_example :
    (rest : List DataFileMeta) × Perm (input_files_at config version 0 ++ rest) (files_at version 0)
    × All (λ f. All (λ g. f.meta.seq_min ≤ g.meta.seq_min) rest) (input_files_at config version 0)
input_files-oldest_example = input_files-oldest config version

pick_compaction-highest_example :
    (level_is_free [] 1 ≡ true)
    × (2 ≡ next_level 1)
    × ("d" ∷ [] ≡ map (λ (g : DataFileMeta). g.path) (input_files_at config version 1))
    × (◌≢◌ {A = List String} ("d" ∷ []) [])
    × (force_l0 hundredths version config [] ≡ true → ◌≡◌ {A = ℕ} 1 0)
    × (force_l0 hundredths version config [] ≡ false
        → (ltb 180 100 ≡ false)
          × (level_is_free [] 0 ≡ true → ltb 180 (l0_score hundredths version config) ≡ false)
          × ((j target : ℕ)
              → get_elem? (50 ∷ 500 ∷ []) j ≡ some target
              → level_is_free [] ((j + 1) % 2 ^ 8) ≡ true
              → 0 < target
              → ltb 180 (level_score hundredths version ((j + 1) % 2 ^ 8) target) ≡ false))
pick_compaction-highest_example =
    pick_compaction-highest hundredths version [] config two_oldest picked

reserved : reserve_next_compaction hundredths version config [] ≡ some (two_oldest, 2 ∷ 1 ∷ [])
unfolding reserve_next_compaction reserve_level contains
reserved = rw (picked, reserve_next_compaction) refl

Reached-IsConsistent_example : IsConsistent (record { busy = 2 ∷ 1 ∷ []; jobs = (1, 2) ∷ [] })
Reached-IsConsistent_example =
    Reached-IsConsistent hundredths (record { busy = 2 ∷ 1 ∷ []; jobs = (1, 2) ∷ [] })
      (one_more _ _ idle
        (start (record { busy = []; jobs = [] }) version config two_oldest (2 ∷ 1 ∷ []) reserved))
