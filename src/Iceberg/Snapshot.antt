-- ===== src/Iceberg/Snapshot.antt =====
-- iceberg/snapshot.rs: one atomic change to the table. A deletion vector (iceberg/deletion_vector.rs, a
-- roaring bitmap) is a type with its union. A hash map is the list of its pairs, each key once.
use Prim.Native.String.{String}
use merutable.Prelude.Texts.{str_eq}
use merutable.Types.Level.{ParquetFileMeta}
use merutable.Prelude.{[], ◌++◌, ℕ, List, ◌∷◌, Bool, if◌then◌else◌, false, ◌||◌}

pub record IcebergDataFile : Type 0 where
  pub path : String
  pub file_size : ℕ
  pub num_rows : ℕ
  pub meta : ParquetFileMeta

pub record SnapshotTransaction (Vector : Type 0) : Type 0 where
  pub adds : List IcebergDataFile
  pub removes : List String
  pub dvs : List (String × Vector)
  pub props : List (String × String)

-- `HashMap::contains_key` and `Vec::contains`
unfoldable pub contains_key : {V : Type 0} → List (String × V) → String → Bool
contains_key [] k = false
contains_key ((j, v) ∷ m) k = str_eq j k || contains_key m k

unfoldable pub contains : List String → String → Bool
contains [] k = false
contains (j ∷ js) k = str_eq j k || contains js k

-- `HashMap::insert`
unfoldable pub insert : {V : Type 0} → String → V → List (String × V) → List (String × V)
insert k v [] = (k, v) ∷ []
insert k v ((j, w) ∷ m) = if str_eq j k then (k, v) ∷ m else (j, w) ∷ insert k v m

module _ (Vector : Type 0) (union_with : Vector → Vector → Vector) where
  -- `SnapshotTransaction::new`
  abbrev pub new : SnapshotTransaction Vector
  new = record { adds = []; removes = []; dvs = []; props = [] }

  unfoldable pub add_file :
      SnapshotTransaction Vector → IcebergDataFile → SnapshotTransaction Vector
  add_file t file = record t { adds = t.adds ++ file ∷ [] }

  -- `SnapshotTransaction::remove_file`
  unfoldable pub remove_path : SnapshotTransaction Vector → String → SnapshotTransaction Vector
  remove_path t path = record t { removes = t.removes ++ path ∷ [] }

  -- `entry(path).and_modify(…).or_insert(dv)`
  unfoldable pub merge_dv : String → Vector → List (String × Vector) → List (String × Vector)
  merge_dv path dv [] = (path, dv) ∷ []
  merge_dv path dv ((j, w) ∷ m) =
      if str_eq j path then (j, union_with w dv) ∷ m else (j, w) ∷ merge_dv path dv m

  unfoldable pub add_dv : SnapshotTransaction Vector → String → Vector → SnapshotTransaction Vector
  add_dv t path dv = record t { dvs = merge_dv path dv t.dvs }

  unfoldable pub set_prop :
      SnapshotTransaction Vector → String → String → SnapshotTransaction Vector
  set_prop t key value = record t { props = insert key value t.props }
