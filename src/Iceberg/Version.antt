-- ===== src/Iceberg/Version.antt =====
-- iceberg/version.rs: a snapshot of the files of each level.
pub mod Search
use Prim.Native.String.{String}
use merutable.Bytes.{Bytes, cmp_bytes}
use merutable.Types.Level.{Level, ParquetFileMeta}
use merutable.Types.Schema.{TableSchema}
use merutable.Prelude.{
  gt, zero, some, none, ok, panic, get_elem?, true, false, List, Bool, Result, Option, ℕ, ◌∷◌,
  length, if◌then◌else◌, ◌+◌, ◌%◌, ◌==◌, suc, [], ◌^◌, max,
}
use merutable.Prelude.Int.{ℤ}

pub record DataFileMeta : Type 0 where
  pub path : String
  pub meta : ParquetFileMeta
  pub dv_path : Option String
  pub dv_offset : Option ℤ
  pub dv_length : Option ℤ

-- `levels` lists the pairs of the hash map, each level once.
pub record Version : Type 0 where
  pub snapshot_id : ℤ
  pub levels : List (Level × List DataFileMeta)
  pub schema : TableSchema

-- `HashMap::get`, and the empty slice for a level that is missing
unfoldable pub files_of : List (Level × List DataFileMeta) → Level → List DataFileMeta
files_of [] level = []
files_of ((l, files) ∷ levels) level =
    let rest = files_of levels level in if l == level then files else rest

-- `Version::files_at`
unfoldable pub files_at : Version → Level → List DataFileMeta
files_at v level = files_of v.levels level

-- `Version::l0_file_count`
unfoldable pub l0_file_count : Version → ℕ
l0_file_count v = length (files_at v 0)

-- The sum is on u64.
unfoldable pub sum_sizes : List DataFileMeta → ℕ
sum_sizes [] = 0
sum_sizes (f ∷ fs) = (f.meta.file_size + sum_sizes fs) % 2 ^ 64

-- `Version::level_bytes`
unfoldable pub level_bytes : Version → Level → ℕ
level_bytes v level = sum_sizes (files_at v level)

-- `a <= b` on byte strings
abbrev pub leb_bytes : Bytes → Bytes → Bool
leb_bytes a b = elim (cmp_bytes a b) [ gt ↦ false | _ ↦ true ]

-- `partition_point(|f| f.meta.key_min <= user_key_bytes)`: the standard library defines it on slices
-- whose first part satisfies the test and whose rest does not, as the length of that part.
unfoldable pub partition_point : Bytes → List DataFileMeta → ℕ
partition_point user_key_bytes [] = 0
partition_point user_key_bytes (f ∷ fs) =
    let rest = partition_point user_key_bytes fs in
    if leb_bytes f.meta.key_min user_key_bytes then suc rest else 0

-- `find_file_for_key` on the files of the level; an index out of bounds would panic
unfoldable pub search_files : List DataFileMeta → Bytes → Result (Option DataFileMeta)
search_files files user_key_bytes = elim (partition_point user_key_bytes files) [
  | zero ↦ ok none
  | suc i ↦ elim (get_elem? files i) [
    | none ↦ panic
    | some candidate ↦
        ok (if leb_bytes user_key_bytes candidate.meta.key_max then some candidate else none)
  ]
]

-- `Version::find_file_for_key`: without files there is no index to take
unfoldable pub find_file_for_key : Version → Level → Bytes → Result (Option DataFileMeta)
find_file_for_key v level user_key_bytes = search_files (files_at v level) user_key_bytes

-- `Version::total_files`
unfoldable pub total_files_of : List (Level × List DataFileMeta) → ℕ
total_files_of [] = 0
total_files_of ((l, files) ∷ levels) = length files + total_files_of levels

unfoldable pub total_files : Version → ℕ
unfolding total_files_of
total_files v = total_files_of v.levels

-- `Version::max_level`
unfoldable pub max_level_of : List (Level × List DataFileMeta) → Level
max_level_of [] = 0
max_level_of ((l, files) ∷ levels) = max l (max_level_of levels)

unfoldable pub max_level : Version → Level
unfolding max_level_of
max_level v = max_level_of v.levels
