-- ===== src/Engine/ReadPath/Examples.antt =====
-- The lookup of a key (engine/read_path.rs) in a version of two levels.
use Prim.Native.String.{String}
use merutable.Bytes.{Bytes, cmp_bytes}
use merutable.Engine.Cache.{RowCache}
use merutable.Engine.Examples.{unbounded}
use merutable.Engine.Job.{is_nil}
use merutable.Engine.ReadPath.{Hit, lookup_files, point_lookup, point_lookup_at_seq}
use merutable.Engine.ReadPath.Cached.{Agrees, point_lookup-at_seq}
use merutable.Engine.ReadPath.EveryFile.{
  FileGet, first_hit, files_from, Leveled, lookup_files-first_hit,
}
use merutable.Engine.ReadPath.Vectors.{vector_range, source_vector_range, vector_range-source}
use merutable.Iceberg.Version.{DataFileMeta, Version, files_at, files_of, max_level}
use merutable.Iceberg.Version.Search.{covers}
use merutable.Prelude.Int.{pos}
use merutable.Types.Sequence.{OpType}
use merutable.Types.Value.{Row}
use merutable.Prelude.{
  ℕ, false, [], ◌∷◌, Option, none, some, Result, ok, ◌>>=◌, ◌≡◌, ◌≤◌, ◌++◌, if◌then◌else◌, refl,
  arith, All,
}

abbrev level_file : String → ℕ → ℕ → DataFileMeta
level_file path low high = record {
  path = path;
  meta = record {
    level = 1;
    seq_min = 1;
    seq_max = 9;
    key_min = low ∷ [];
    key_max = high ∷ [];
    num_rows = 3;
    file_size = 100;
    dv_path = none;
    dv_offset = none;
    dv_length = none;
    format = none;
  };
  dv_path = none;
  dv_offset = none;
  dv_length = none;
}

abbrev two_levels : Version
two_levels = record {
  snapshot_id = pos 1;
  levels = (0, level_file "a" 3 4 ∷ []) ∷ (1, level_file "b" 1 2 ∷ level_file "c" 5 9 ∷ []) ∷ [];
  schema = record {
    table_name = "t";
    columns = [];
    primary_key = [];
    schema_id = 0;
    last_column_id = 0;
  };
}

abbrev some_hit : Hit
some_hit =
    (record { encoded = []; seq = 3; op_type = OpType.put; pk_values = [] }, record { fields = [] })

abbrev in_range : FileGet
in_range f key read_seq = if covers key f then ok (some some_hit) else ok none

in_range-outside : (f : DataFileMeta) → covers (7 ∷ []) f ≡ false → in_range f (7 ∷ []) 9 ≡ ok none
in_range-outside f u = rw u refl

max_level_one : max_level two_levels ≡ 1
unfolding max_level
max_level_one = refl

two_levels-Leveled : Leveled two_levels (max_level two_levels) 1
unfolding files_at files_of cmp_bytes
two_levels-Leveled = rw max_level_one ((refl, (refl, tt), (refl, tt, tt)), tt)

bounds :
    All
      (λ f. (is_nil f.meta.key_min ≡ false) × (is_nil f.meta.key_max ≡ false))
      (files_at two_levels 0)
unfolding files_at files_of
bounds = ((refl, refl), tt)

lookup_files-first_hit_example :
    lookup_files in_range two_levels (7 ∷ []) 9
    ≡ first_hit in_range
        (files_at two_levels 0 ++ files_from two_levels (max_level two_levels) 1)
        (7 ∷ [])
        9
        (ok none)
lookup_files-first_hit_example =
    lookup_files-first_hit in_range two_levels (7 ∷ []) 9 in_range-outside bounds two_levels-Leveled

abbrev cold : RowCache unbounded.Map
cold = record { inner = unbounded.empty 4; generation = 0; hits = 0; misses = 0 }

abbrev no_columns : Bytes → Result Row
no_columns bytes = ok (record { fields = [] })

cold-Agrees : Agrees in_range no_columns unbounded two_levels 9 cold.inner
cold-Agrees k e p = cc

point_lookup-at_seq_example :
    ((point_lookup in_range no_columns unbounded none cold two_levels (7 ∷ []) 9 >>= λ x. ok x.0)
      ≡ point_lookup_at_seq in_range no_columns none two_levels (7 ∷ []) 9)
    × ((row : Option Row) (after : RowCache unbounded.Map)
        → point_lookup in_range no_columns unbounded none cold two_levels (7 ∷ []) 9
          ≡ ok (row, after)
        → Agrees in_range no_columns unbounded two_levels 9 after.inner)
point_lookup-at_seq_example =
    point_lookup-at_seq in_range no_columns unbounded two_levels 9 none cold (7 ∷ []) cold-Agrees

vector_range-source_example :
    (vector_range (some "d") (some (pos 4)) (some (pos 10)) 20
      ≡ source_vector_range (some "d") (some (pos 4)) (some (pos 10)) 20)
    × ((start end : ℕ)
        → vector_range (some "d") (some (pos 4)) (some (pos 10)) 20 ≡ ok (some (start, end))
        → (start ≤ end) × (end ≤ 20))
vector_range-source_example =
    vector_range-source (some "d") (some (pos 4)) (some (pos 10)) 20 (λ o e. ground (arith, e))
      (λ l e. ground (arith, e)) (omega arith)
