-- ===== src/Engine/Job.antt =====
-- engine/compaction/job.rs: the files that a compaction reads besides its input, and the output files
-- into which it splits the rows.
pub mod Overlap
pub mod Chunks
mod Examples
use merutable.Bytes.{Bytes, cmp_bytes, eq_bytes}
use merutable.Engine.Compaction.{CompactionEntry}
use merutable.Iceberg.Version.{DataFileMeta, leb_bytes}
use merutable.Types.Key.{InternalKey, user_key_bytes}
use merutable.Types.Value.{FieldValue, Row}
use merutable.Prelude.{
  ℕ, Bool, true, false, List, [], ◌∷◌, Option, none, some, ◌+◌, ◌-◌, ◌*◌, ◌%◌, ◌^◌, min, ◌++◌,
  length, ltb, ◌==◌, not, ◌&&◌, ◌||◌, if◌then◌else◌, lt, gt, Ordering,
}

-- `<` on byte strings
abbrev pub ltb_bytes : Bytes → Bytes → Bool
ltb_bytes a b = elim (cmp_bytes a b) [ lt ↦ true | _ ↦ false ]

-- `compute_union_range`: one file, then all
unfoldable pub lower_bound : Option Bytes → Bytes → Option Bytes
lower_bound none km = some km
lower_bound (some cur) km = if ltb_bytes km cur then some km else some cur

unfoldable pub upper_bound : Option Bytes → Bytes → Option Bytes
upper_bound none kx = some kx
upper_bound (some cur) kx = if ltb_bytes cur kx then some kx else some cur

unfoldable pub union_range :
    Option Bytes → Option Bytes → List DataFileMeta → Option Bytes × Option Bytes
union_range union_min union_max [] = (union_min, union_max)
union_range union_min union_max (f ∷ fs) =
    union_range (lower_bound union_min f.meta.key_min) (upper_bound union_max f.meta.key_max) fs

unfoldable pub compute_union_range : List DataFileMeta → Option Bytes × Option Bytes
compute_union_range files = union_range none none files

abbrev pub is_nil : Bytes → Bool
is_nil [] = true
is_nil (b ∷ bs) = false

-- Whether a file of the output level is pulled in
unfoldable pub overlaps : Bytes → Bytes → DataFileMeta → Bool
overlaps umin umax f =
    (is_nil f.meta.key_min || leb_bytes f.meta.key_min umax)
    && (is_nil f.meta.key_max || leb_bytes umin f.meta.key_max)

unfoldable pub filter_overlaps : Bytes → Bytes → List DataFileMeta → List DataFileMeta
filter_overlaps umin umax [] = []
filter_overlaps umin umax (f ∷ fs) =
    if overlaps umin umax f then f ∷ filter_overlaps umin umax fs else filter_overlaps umin umax fs

-- `overlap_output_metas`
unfoldable pub pull_in : Option Bytes × Option Bytes → List DataFileMeta → List DataFileMeta
pull_in (some umin, some umax) files = filter_overlaps umin umax files
pull_in (some umin, none) files = []
pull_in (none, umax) files = []

-- `estimate_row_bytes`: sums on u64
unfoldable pub field_bytes : Option FieldValue → ℕ
field_bytes none = 0
field_bytes (some (FieldValue.boolean b)) = 1
field_bytes (some (FieldValue.int32 i)) = 4
field_bytes (some (FieldValue.int64 i)) = 8
field_bytes (some (FieldValue.float x)) = 4
field_bytes (some (FieldValue.double x)) = 8
field_bytes (some (FieldValue.bytes b)) = length b + 8

unfoldable pub estimate_fields : List (Option FieldValue) → ℕ
estimate_fields [] = 0
estimate_fields (f ∷ fs) = (field_bytes f + estimate_fields fs) % 2 ^ 64

unfoldable pub estimate_row_bytes : Row → ℕ
estimate_row_bytes row = estimate_fields row.fields

abbrev pub target_output_file_bytes : ℕ
target_output_file_bytes = 512 * 1024 * 1024

pub record OutputChunk : Type 0 where
  pub rows : List (InternalKey × Row)
  pub seq_min : ℕ
  pub seq_max : ℕ
  pub key_min : Bytes
  pub key_max : Bytes
  pub approx_bytes : ℕ
  pub last_user_key : Bytes

-- `OutputChunk::empty`
abbrev pub empty_chunk : OutputChunk
empty_chunk = record {
  rows = [];
  seq_min = 2 ^ 64 - 1;
  seq_max = 0;
  key_min = [];
  key_max = [];
  approx_bytes = 0;
  last_user_key = [];
}

-- `OutputChunk::push`
unfoldable pub push : OutputChunk → InternalKey → Row → ℕ → OutputChunk
push c ikey row est_bytes =
    let uk = user_key_bytes ikey in
    record {
      rows = c.rows ++ (ikey, row) ∷ [];
      seq_min = if ltb ikey.seq c.seq_min then ikey.seq else c.seq_min;
      seq_max = if ltb c.seq_max ikey.seq then ikey.seq else c.seq_max;
      key_min = if is_nil c.key_min || ltb_bytes uk c.key_min then uk else c.key_min;
      key_max = if ltb_bytes c.key_max uk then uk else c.key_max;
      approx_bytes = min (c.approx_bytes + est_bytes) (2 ^ 64 - 1);
      last_user_key = uk;
    }

-- `est` of an entry
unfoldable pub entry_bytes : CompactionEntry → ℕ
entry_bytes e = (estimate_row_bytes e.row + length (user_key_bytes e.ikey) + 16) % 2 ^ 64

unfoldable pub has_no_rows : OutputChunk → Bool
has_no_rows c = elim c.rows [ [] ↦ true | _ ↦ false ]

-- Whether a new chunk starts at an entry
unfoldable pub starts_chunk : OutputChunk → CompactionEntry → Bool
starts_chunk c e =
    not (has_no_rows c)
    && (ltb target_output_file_bytes (min (c.approx_bytes + entry_bytes e) (2 ^ 64 - 1))
        && not (eq_bytes c.last_user_key (user_key_bytes e.ikey)))

-- The loop over the entries, and the chunk that is left at its end
unfoldable pub split_chunks : OutputChunk → List CompactionEntry → List OutputChunk
split_chunks current [] = if has_no_rows current then [] else current ∷ []
split_chunks current (e ∷ es) = elim (starts_chunk current e) [
  | true ↦ current ∷ split_chunks (push empty_chunk e.ikey e.row (entry_bytes e)) es
  | false ↦ split_chunks (push current e.ikey e.row (entry_bytes e)) es
]

-- The chunks of a job
unfoldable pub output_chunks : List CompactionEntry → List OutputChunk
output_chunks entries = split_chunks empty_chunk entries
