-- ===== src/Iceberg/Manifest.antt =====
-- iceberg/manifest.rs: the list of the files of a snapshot, and what a transaction makes of it. The time
-- and a fresh uuid are arguments; the statistics of columns are left out.
pub mod Rows
pub mod Applied
pub mod Lineage
pub mod Levels
mod Examples
use Prim.Native.String.{String}
use merutable.Prelude.Texts.{str_eq}
use merutable.Prelude.MeruError.{iceberg}
use merutable.Prelude.Int.{ℤ, pos, as_signed, as_unsigned}
use merutable.Bytes.{Bytes, cmp_bytes}
use merutable.Types.Level.{Level, ParquetFileMeta}
use merutable.Types.Schema.{TableSchema}
use merutable.Iceberg.Snapshot.{
  IcebergDataFile, SnapshotTransaction, contains_key, contains, insert,
}
use merutable.Iceberg.Version.{DataFileMeta, Version}
use merutable.Prelude.{
  gt, ◌>>=◌, ℕ, List, ◌+◌, none, Bool, Option, [], some, ◌∷◌, if◌then◌else◌, ◌==◌, leb, Result, ◌%◌,
  panic, ok, ◌^◌, ◌++◌, false, ◌||◌, guard, not, ◌>>◌, true,
}

pub record DvLocation : Type 0 where
  pub dv_path : String
  pub dv_offset : ℤ
  pub dv_length : ℤ

pub record ManifestEntry : Type 0 where
  pub path : String
  pub meta : ParquetFileMeta
  pub dv_path : Option String
  pub dv_offset : Option ℤ
  pub dv_length : Option ℤ
  pub status : String
  pub first_row_id : Option ℤ

pub record Manifest : Type 0 where
  pub format_version : ℤ
  pub table_uuid : String
  pub last_updated_ms : ℤ
  pub snapshot_id : ℤ
  pub parent_snapshot_id : Option ℤ
  pub sequence_number : ℤ
  pub next_row_id : ℤ
  pub first_row_id : ℤ
  pub schema : TableSchema
  pub entries : List ManifestEntry
  pub properties : List (String × String)

-- `+` on i64, which wraps
abbrev pub add_i64 : ℤ → ℤ → ℤ
add_i64 a b = as_signed 63 ((as_unsigned 63 a + as_unsigned 63 b) % 2 ^ 64)

-- `entry.status == "deleted"`
abbrev pub is_deleted : ManifestEntry → Bool
is_deleted e = str_eq e.status "deleted"

unfoldable pub to_data_file_meta : ManifestEntry → DataFileMeta
to_data_file_meta e = record {
  path = e.path;
  meta = e.meta;
  dv_path = e.dv_path;
  dv_offset = e.dv_offset;
  dv_length = e.dv_length;
}

-- `Manifest::empty_with_uuid`
unfoldable pub empty_with_uuid : TableSchema → String → ℤ → Manifest
empty_with_uuid schema table_uuid now_ms = record {
  format_version = pos 3;
  table_uuid = table_uuid;
  last_updated_ms = now_ms;
  snapshot_id = pos 0;
  parent_snapshot_id = none;
  sequence_number = pos 0;
  next_row_id = pos 0;
  first_row_id = pos 0;
  schema = schema;
  entries = [];
  properties = [];
}

-- `levels.entry(level).or_default().push(file)`
unfoldable pub push_file :
    Level → DataFileMeta → List (Level × List DataFileMeta) → List (Level × List DataFileMeta)
push_file level f [] = (level, f ∷ []) ∷ []
push_file level f ((l, fs) ∷ levels) =
    if l == level then (l, fs ++ f ∷ []) ∷ levels else (l, fs) ∷ push_file level f levels

-- The loop of `to_version`
unfoldable pub group_levels :
    List ManifestEntry → List (Level × List DataFileMeta) → List (Level × List DataFileMeta)
group_levels [] levels = levels
group_levels (e ∷ es) levels =
    group_levels es
      (if is_deleted e then levels else push_file e.meta.level (to_data_file_meta e) levels)

-- `sort_by_key(|f| Reverse(f.meta.seq_max))` and `sort_by(key_min)`, which are stable: `before f g` says
-- that `g` may not stand before `f`.
unfoldable pub insert_file :
    (DataFileMeta → DataFileMeta → Bool) → DataFileMeta → List DataFileMeta → List DataFileMeta
insert_file before f [] = f ∷ []
insert_file before f (g ∷ gs) = if before f g then f ∷ g ∷ gs else g ∷ insert_file before f gs

unfoldable pub sort_files :
    (DataFileMeta → DataFileMeta → Bool) → List DataFileMeta → List DataFileMeta
sort_files before [] = []
sort_files before (f ∷ fs) = insert_file before f (sort_files before fs)

abbrev pub newer_first : DataFileMeta → DataFileMeta → Bool
newer_first f g = leb g.meta.seq_max f.meta.seq_max

abbrev pub lower_first : DataFileMeta → DataFileMeta → Bool
lower_first f g = elim (cmp_bytes f.meta.key_min g.meta.key_min) [ gt ↦ false | _ ↦ true ]

abbrev pub order_of : Level → DataFileMeta → DataFileMeta → Bool
order_of level = if level == 0 then newer_first else lower_first

-- The two sorts of `to_version`
unfoldable pub sort_levels : List (Level × List DataFileMeta) → List (Level × List DataFileMeta)
sort_levels [] = []
sort_levels ((l, fs) ∷ levels) = (l, sort_files (order_of l) fs) ∷ sort_levels levels

unfoldable pub to_version : Manifest → TableSchema → Version
to_version m schema = record {
  snapshot_id = m.snapshot_id;
  levels = sort_levels (group_levels m.entries []);
  schema = schema;
}

-- `HashMap` index, which panics where the key is missing
unfoldable pub location_of : List (String × DvLocation) → String → Result DvLocation
location_of [] k = panic
location_of ((j, loc) ∷ m) k = let rest = location_of m k in if str_eq j k then ok loc else rest

-- The three fields of an entry, and the same in its metadata
unfoldable pub stamp : ManifestEntry → DvLocation → ManifestEntry
stamp e loc = record e {
  dv_path = some loc.dv_path;
  dv_offset = some loc.dv_offset;
  dv_length = some loc.dv_length;
  meta = record e.meta {
    dv_path = some loc.dv_path;
    dv_offset = some loc.dv_offset;
    dv_length = some loc.dv_length;
  };
}

-- The assignment of row ids to the entries that have none: the entries, and the cursor then
unfoldable pub assign_rows : List ManifestEntry → ℤ → List ManifestEntry × ℤ
assign_rows [] cursor = ([], cursor)
assign_rows (e ∷ es) cursor = elim e.first_row_id [
  | some id ↦ (let (rest, c) = assign_rows es cursor in (e ∷ rest, c))
  | none ↦
      (let (rest, c) = assign_rows es (add_i64 cursor (as_signed 63 e.meta.num_rows)) in
        (record e { first_row_id = some cursor } ∷ rest, c))
]

-- The entries of the added files
unfoldable pub add_entries : List IcebergDataFile → ℤ → List ManifestEntry × ℤ
add_entries [] cursor = ([], cursor)
add_entries (a ∷ adds) cursor =
    let (rest, c) = add_entries adds (add_i64 cursor (as_signed 63 a.num_rows)) in
    (
      record {
        path = a.path;
        meta = a.meta;
        dv_path = none;
        dv_offset = none;
        dv_length = none;
        status = "added";
        first_row_id = some cursor;
      }
          ∷ rest,
      c,
    )

-- `props.extend(…)`
unfoldable pub extend : List (String × String) → List (String × String) → List (String × String)
extend props [] = props
extend props ((k, v) ∷ more) = extend (insert k v props) more

abbrev pub is_empty : String → Bool
is_empty s = str_eq s ""

abbrev pub is_zero : ℤ → Bool
is_zero v = elim v [ pos n ↦ n == 0 | _ ↦ false ]

module _ (Vector : Type 0) where
  -- The two checks at the head of `apply`
  unfoldable pub check_locations :
      List (String × Vector) → List (String × DvLocation) → Result (Unit {0})
  check_locations [] locations = ok tt
  check_locations ((path, dv) ∷ dvs) locations =
      guard (contains_key locations path) iceberg >> check_locations dvs locations

  unfoldable pub check_conflicts : List (String × Vector) → List String → Result (Unit {0})
  check_conflicts [] removes = ok tt
  check_conflicts ((path, dv) ∷ dvs) removes =
      guard (not (contains removes path)) iceberg >> check_conflicts dvs removes

  -- The loop that carries entries forward
  unfoldable pub carry_forward :
      List ManifestEntry
      → SnapshotTransaction Vector
      → List (String × DvLocation)
      → Result (List ManifestEntry)
  carry_forward [] txn locations = ok []
  carry_forward (e ∷ es) txn locations =
      let rest = carry_forward es txn locations in
      if is_deleted e || contains txn.removes e.path then rest else do
        kept ←
            (if contains_key txn.dvs e.path
              then (do loc ← location_of locations e.path; ok (stamp e loc))
              else ok e)
        others ← rest
        ok (kept ∷ others)

  -- The new manifest, from the entries carried forward
  unfoldable pub applied :
      Manifest → SnapshotTransaction Vector → ℤ → String → ℤ → List ManifestEntry → Manifest
  applied m txn new_snapshot_id fresh_uuid now_ms carried =
      let (old, cursor) = assign_rows carried m.next_row_id in
      let (added, next) = add_entries txn.adds cursor in
      record {
        format_version = m.format_version;
        table_uuid = if is_empty m.table_uuid then fresh_uuid else m.table_uuid;
        last_updated_ms = now_ms;
        snapshot_id = new_snapshot_id;
        parent_snapshot_id = if is_zero m.snapshot_id then none else some m.snapshot_id;
        sequence_number = add_i64 m.sequence_number (pos 1);
        next_row_id = next;
        first_row_id = m.next_row_id;
        schema = m.schema;
        entries = old ++ added;
        properties = extend m.properties txn.props;
      }

  -- `Manifest::apply`
  unfoldable pub apply :
      Manifest
      → SnapshotTransaction Vector
      → ℤ
      → List (String × DvLocation)
      → String
      → ℤ
      → Result Manifest
  apply m txn new_snapshot_id locations fresh_uuid now_ms = do
    check_locations txn.dvs locations
    check_conflicts txn.dvs txn.removes
    carried ← carry_forward m.entries txn locations
    ok (applied m txn new_snapshot_id fresh_uuid now_ms carried)

-- `Manifest::live_file_count`
unfoldable pub live_count : List ManifestEntry → ℕ
live_count [] = 0
live_count (e ∷ es) = if is_deleted e then live_count es else live_count es + 1

unfoldable pub live_file_count : Manifest → ℕ
unfolding live_count
live_file_count m = live_count m.entries
