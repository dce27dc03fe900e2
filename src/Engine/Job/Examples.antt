-- ===== src/Engine/Job/Examples.antt =====
-- Compaction jobs (engine/compaction/job.rs) on small files.
use Prim.Native.String.{String}
use merutable.Bytes.{Bytes, cmp_bytes}
use merutable.Engine.Compaction.{CompactionEntry}
use merutable.Engine.Job.{
  output_chunks, compute_union_range, union_range, lower_bound, upper_bound, pull_in,
  filter_overlaps, overlaps,
}
use merutable.Engine.Job.Chunks.{Separate, output_chunks-Separate}
use merutable.Engine.Job.Chunks.Rows.{Sorted, all_rows, rows_of}
use merutable.Engine.Job.Overlap.{Rewritten, pull_in-one_side}
use merutable.Engine.Job.Overlap.Sides.{Member}
use merutable.Iceberg.Version.{DataFileMeta}
use merutable.Iceberg.Version.Search.{Disjoint}
use merutable.Types.Key.{user_key_bytes}
use merutable.Types.Sequence.{OpType}
use merutable.Prelude.{ℕ, List, [], ◌∷◌, ◌≡◌, ◌⊎◌, inl, inr, none, lt, ap, refl}

abbrev entry : ℕ → ℕ → CompactionEntry
entry key seq = record {
  ikey = record {
    encoded = key ∷ 0 ∷ 0 ∷ 0 ∷ 0 ∷ 0 ∷ 0 ∷ 0 ∷ 0 ∷ [];
    seq = seq;
    op_type = OpType.put;
    pk_values = [];
  };
  row = record { fields = [] };
  source_file_idx = 0;
  row_position = 0;
}

abbrev entries : List CompactionEntry
entries = entry 1 9 ∷ entry 1 7 ∷ entry 3 8 ∷ []

entries-Sorted : Sorted entries
unfolding user_key_bytes cmp_bytes
entries-Sorted = (refl, (refl, (refl, tt)), (refl, (refl, tt), (refl, tt, tt)))

output_chunks-Separate_example :
    (all_rows (output_chunks entries) ≡ rows_of entries) × Separate (output_chunks entries)
output_chunks-Separate_example = output_chunks-Separate entries entries-Sorted

abbrev range_file : String → ℕ → ℕ → DataFileMeta
range_file path low high = record {
  path = path;
  meta = record {
    level = 1;
    seq_min = 1;
    seq_max = 9;
    key_min = low ∷ [];
    key_max = high ∷ [];
    num_rows = 3;
    file_size = 100;
    dv_path = none;
    dv_offset = none;
    dv_length = none;
    format = none;
  };
  dv_path = none;
  dv_offset = none;
  dv_length = none;
}

abbrev output_level : List DataFileMeta
output_level = range_file "a" 1 4 ∷ range_file "b" 6 9 ∷ []

abbrev input : List DataFileMeta
input = range_file "c" 2 5 ∷ []

not_pulled : Member (range_file "b" 6 9) (pull_in (compute_union_range input) output_level) → ⊥
unfolding compute_union_range union_range lower_bound upper_bound pull_in filter_overlaps overlaps
    cmp_bytes
not_pulled (inl e) = let lows = ap (λ (f : DataFileMeta). f.meta.key_min) e in cc
not_pulled (inr m) = m

output_level-Disjoint : Disjoint output_level
unfolding cmp_bytes
output_level-Disjoint = (refl, (refl, tt), (refl, tt, tt))

pull_in-one_side_example :
    ((k : Bytes) → Rewritten input output_level k → cmp_bytes k (6 ∷ []) ≡ lt)
    ⊎ ((k : Bytes) → Rewritten input output_level k → cmp_bytes (9 ∷ []) k ≡ lt)
pull_in-one_side_example =
    pull_in-one_side input output_level (range_file "b" 6 9) output_level-Disjoint (refl, tt)
      (refl, (refl, tt)) (inr (inl refl)) not_pulled
