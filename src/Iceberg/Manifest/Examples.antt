-- ===== src/Iceberg/Manifest/Examples.antt =====
-- A manifest of two files (iceberg/manifest.rs), a transaction on it, and the theorems about them at it.
use Prim.Native.String.{String}
use mathlib.Core.List.{Perm}
use merutable.Prelude.MeruError.{iceberg}
use merutable.Bytes.{Bytes, cmp_bytes}
use merutable.Prelude.Int.{ℤ, pos}
use merutable.Types.Level.{ParquetFileMeta}
use merutable.Types.Schema.{TableSchema}
use merutable.Iceberg.Snapshot.{SnapshotTransaction, contains, contains_key}
use merutable.Iceberg.Version.{find_file_for_key, files_at}
use merutable.Iceberg.Version.Search.{first_covering}
use merutable.Iceberg.Manifest.{
  DvLocation, ManifestEntry, Manifest, apply, applied, to_version, check_locations, check_conflicts,
  to_data_file_meta, carry_forward, location_of, stamp,
}
use merutable.Prelude.{
  List, ℕ, [], none, Option, ◌≡◌, ◌∷◌, ok, some, ◌≤◌, All, arith, ◌⊎◌, err, refl, inr,
}
use merutable.Iceberg.Manifest.Lineage.{IsLineage, apply-IsLineage}
use merutable.Iceberg.Manifest.Applied.{AllLocated, NoConflict, apply-checked}
use merutable.Iceberg.Manifest.Levels.{live_at, find_file-live_at, Falls, to_version-perm}
use merutable.Iceberg.Manifest.Rows.{IsAssigned}

abbrev a_meta : ℕ → Bytes → Bytes → ParquetFileMeta
a_meta rows low high = record {
  level = 1;
  seq_min = 1;
  seq_max = 9;
  key_min = low;
  key_max = high;
  num_rows = rows;
  file_size = 100;
  dv_path = none;
  dv_offset = none;
  dv_length = none;
  format = none;
}

abbrev an_entry : String → ℕ → Bytes → Bytes → Option ℤ → ManifestEntry
an_entry path rows low high id = record {
  path = path;
  meta = a_meta rows low high;
  dv_path = none;
  dv_offset = none;
  dv_length = none;
  status = "existing";
  first_row_id = id;
}

abbrev no_columns : TableSchema
no_columns = record {
  table_name = "t";
  columns = [];
  primary_key = [];
  schema_id = 0;
  last_column_id = 0;
}

-- The files are not in the order of their keys, and the second has no row ids yet.
abbrev two_entries : Manifest
two_entries = record {
  format_version = pos 3;
  table_uuid = "u";
  last_updated_ms = pos 0;
  snapshot_id = pos 7;
  parent_snapshot_id = none;
  sequence_number = pos 4;
  next_row_id = pos 10;
  first_row_id = pos 0;
  schema = no_columns;
  entries =
      an_entry "b" 6 (5 ∷ []) (9 ∷ []) (some (pos 2)) ∷ an_entry "a" 3 (1 ∷ []) (4 ∷ []) none ∷ [];
  properties = [];
}

-- Deletions in one file, and a file that is added
abbrev a_change : SnapshotTransaction ℕ
a_change = record {
  adds =
      record { path = "c"; file_size = 100; num_rows = 5; meta = a_meta 5 (11 ∷ []) (12 ∷ []) }
      ∷ [];
  removes = [];
  dvs = ("b", 1) ∷ [];
  props = [];
}

abbrev a_location : List (String × DvLocation)
a_location = ("b", record { dv_path = "p"; dv_offset = pos 4; dv_length = pos 40 }) ∷ []

changed : Manifest
changed = applied ℕ two_entries a_change (pos 8) "v" (pos 0) (
    record (an_entry "b" 6 (5 ∷ []) (9 ∷ []) (some (pos 2))) {
      dv_path = some "p";
      dv_offset = some (pos 4);
      dv_length = some (pos 40);
      meta = record (a_meta 6 (5 ∷ []) (9 ∷ [])) {
        dv_path = some "p";
        dv_offset = some (pos 4);
        dv_length = some (pos 40);
      };
    }
    ∷ an_entry "a" 3 (1 ∷ []) (4 ∷ []) none
    ∷ [])

changed_lem : apply ℕ two_entries a_change (pos 8) a_location "v" (pos 0) ≡ ok changed
unfolding apply check_locations check_conflicts carry_forward contains_key contains location_of
    stamp changed
changed_lem = refl

apply-IsLineage_example :
    (d : ℕ) × IsLineage d changed × (10 ≤ d) × All (λ e. IsAssigned e.first_row_id) changed.entries
apply-IsLineage_example =
    apply-IsLineage ℕ two_entries a_change (pos 8) a_location "v" (pos 0) changed 10
      (record { next = refl; inside = (omega arith, (tt, tt)); apart = ((tt, tt), (tt, tt)) })
      (refl, tt) (omega arith) changed_lem

apply-checked_example :
    ((r : Manifest) × (apply ℕ two_entries a_change (pos 8) a_location "v" (pos 0) ≡ ok r)
      × AllLocated ℕ a_change.dvs a_location
      × NoConflict ℕ a_change.dvs a_change.removes)
    ⊎ ((apply ℕ two_entries a_change (pos 8) a_location "v" (pos 0) ≡ err iceberg)
        × ((AllLocated ℕ a_change.dvs a_location × NoConflict ℕ a_change.dvs a_change.removes) → ⊥))
apply-checked_example = apply-checked ℕ two_entries a_change (pos 8) a_location "v" (pos 0)

find_file-live_at_example :
    find_file_for_key (to_version two_entries no_columns) 1 (3 ∷ [])
    ≡ ok (first_covering (3 ∷ []) (live_at two_entries.entries 1))
unfolding cmp_bytes to_data_file_meta
find_file-live_at_example =
    find_file-live_at two_entries no_columns 1 (3 ∷ []) (omega arith)
      (refl, (inr refl, tt), (refl, tt, tt))

to_version-perm_example :
    Perm (files_at (to_version two_entries no_columns) 1) (live_at two_entries.entries 1)
    × Falls (files_at (to_version two_entries no_columns) 0)
to_version-perm_example = to_version-perm two_entries no_columns 1
