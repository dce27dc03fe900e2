-- ===== src/Iceberg/Examples.antt =====
-- The search for a file (iceberg/version.rs) on a level of two files.
use Prim.Native.String.{String}
use merutable.Iceberg.Version.{DataFileMeta, Version, files_at, find_file_for_key, files_of}
use merutable.Iceberg.Version.Search.{first_covering, find_file-first_covering}
use merutable.Types.Schema.{TableSchema}
use merutable.Prelude.Int.{pos}
use merutable.Bytes.{Bytes, cmp_bytes}
use merutable.Prelude.{List, ◌∷◌, [], none, ◌≡◌, ok, refl}

abbrev file : String → Bytes → Bytes → DataFileMeta
file path low high = record {
  path = path;
  meta = record {
    level = 1;
    seq_min = 1;
    seq_max = 9;
    key_min = low;
    key_max = high;
    num_rows = 3;
    file_size = 100;
    dv_path = none;
    dv_offset = none;
    dv_length = none;
    format = none;
  };
  dv_path = none;
  dv_offset = none;
  dv_length = none;
}

abbrev no_columns : TableSchema
no_columns = record {
  table_name = "t";
  columns = [];
  primary_key = [];
  schema_id = 0;
  last_column_id = 0;
}

abbrev two_files : List DataFileMeta
two_files = file "a" (1 ∷ []) (4 ∷ []) ∷ file "b" (5 ∷ []) (5 ∷ 9 ∷ []) ∷ []

abbrev one_level : Version
one_level = record { snapshot_id = pos 3; levels = (1, two_files) ∷ []; schema = no_columns }

find_file-first_covering_example :
    find_file_for_key one_level 1 (5 ∷ 2 ∷ [])
    ≡ ok (first_covering (5 ∷ 2 ∷ []) (files_at one_level 1))
unfolding files_at files_of cmp_bytes
find_file-first_covering_example =
    find_file-first_covering one_level 1 (5 ∷ 2 ∷ []) (refl, (refl, tt), (refl, tt, tt))
