-- ===== src/Engine/WritePath/Examples.antt =====
-- Writes on a concrete engine (engine/write_path.rs), and what recovery makes of them.
use merutable.Bytes.{Bytes}
use merutable.Engine.Cache.{CacheEntry}
use merutable.Engine.Codec.{encode_row}
use merutable.Engine.Examples.{unbounded}
use merutable.Engine.WritePath.{
  encode_ops, op_value, apply_mutations, validate_ops, forget_ops, rotate_full, Mutation, Engine,
  EncodedOp, fill_batch, write_locked, recover_memtable,
}
use merutable.Engine.WritePath.Durable.{recover_memtable-Run}
use merutable.Engine.WritePath.Effects.{Effect}
use merutable.Engine.WritePath.Mutations.{apply_mutations-Run}
use merutable.Types.Key.{encode_user_key, encode_pk_fields, encode_pk_loop, encode_field}
use merutable.Types.Row.{validate, check_fields, check_field, check_value}
use merutable.Types.Value.{FieldValue, Row}
use merutable.Prelude.{true, some, Result, ◌++◌}
use merutable.Engine.WritePath.Writes.{Run, opened, written, wal_rotated}
use merutable.Engine.WritePath.Writes.Batches.{history}
use merutable.Memtable.Manager
use merutable.Memtable.Manager.{MemtableManager}
use merutable.Memtable.SkipMap.{SkipMap, sorted_list}
use merutable.Memtable.Skiplist
use merutable.Memtable.Skiplist.{EntryValue}
use merutable.Memtable.Skiplist.Lookup.{Apart}
use merutable.Memtable.Table
use merutable.Types.Sequence.{OpType, allocate_n, set_at_least}
use merutable.Types.Schema.{ColumnType}
use merutable.Wal.Batch
use merutable.Wal.Batch.{WriteBatch}
use merutable.Wal.Manager.{open_dir, append as wal_append, rotate as wal_rotate}
use merutable.Wal.Manager.Listing.{same}
use merutable.Prelude.{◌<◌, Option, ◌∷◌, ℕ, List, [], ◌^◌, ◌≡◌, All, false, arith, ok, none, refl}
use merutable.Memtable.Table.History.{history_of}

abbrev plain : SkipMap EntryValue
plain = sorted_list

abbrev Map : Type 0
Map = List (Bytes × EntryValue)

abbrev CacheMap : Type 0
CacheMap = Bytes → Option CacheEntry

-- A checksum
abbrev none_sum : Bytes → ℕ
none_sum b = 0

none_sum-lt : (b : Bytes) → none_sum b < 2 ^ 32
none_sum-lt b = omega arith

abbrev one_key : Bytes
one_key = 1 ∷ []

abbrev one_op : EncodedOp
one_op = record { user_key_bytes = one_key; value_bytes = 1 ∷ 9 ∷ []; op_type = OpType.put }

abbrev fresh : Engine Map CacheMap
fresh = record {
  schema = record {
    table_name = "t";
    columns =
        record {
          name = "k";
          col_type = ColumnType.boolean;
          nullable = false;
          field_id = none;
          initial_default = none;
          write_default = none;
        }
        ∷ [];
    primary_key = 0 ∷ [];
    schema_id = 0;
    last_column_id = 0;
  };
  read_only = false;
  closed = false;
  global_seq = 1;
  visible_seq = 0;
  wal = open_dir [] 1;
  memtable = Manager.new plain 1 4096 4;
  row_cache = none;
}

abbrev one_batch : WriteBatch
one_batch = fill_batch (Batch.new 1) (one_op ∷ [])

abbrev put_table : MemtableManager Map
put_table = record fresh.memtable {
  active = Table.apply_records plain fresh.memtable.active 1 one_batch.records;
}

abbrev after_put : Engine Map CacheMap
after_put = record fresh {
  global_seq = 2;
  visible_seq = 1;
  wal = wal_append none_sum fresh.wal one_batch;
  memtable = put_table;
}

put_written : write_locked none_sum plain unbounded fresh (one_op ∷ []) ≡ ok (1, false, after_put)
unfolding write_locked allocate_n set_at_least fill_batch Batch.put Manager.apply_batch Manager.new
    Table.apply_batch Table.new Table.apply_records Skiplist.insert Skiplist.new
put_written = refl

abbrev after_rotation : Engine Map CacheMap
after_rotation = record after_put { wal = (wal_rotate after_put.wal).1 }

after_rotation-Run : Run none_sum plain unbounded after_rotation (one_batch ∷ [])
unfolding wal_append open_dir
after_rotation-Run =
    wal_rotated after_put (one_batch ∷ [])
      (written fresh after_put [] (one_op ∷ []) 1 false
        (opened fresh 1 4096 4 1 refl refl (omega arith) (omega arith)) (omega arith) (omega arith)
        (omega arith) ((omega arith, omega arith), tt) put_written)
      (omega arith)

one_key-Apart : All (λ v. Apart one_key v.user_key) (history [] (one_batch ∷ []))
unfolding fill_batch Batch.put history_of
one_key-Apart = ((λ x y e. refl), tt)

recover_memtable-Run_example :
    (init_seq : ℕ) × (mgr : MemtableManager Map) × (recover_memtable none_sum plain
        after_rotation.wal.dir 0 4096 4
      ≡ ok (init_seq, mgr))
    × All (λ v. v.seq < init_seq) (history [] (one_batch ∷ []))
    × (Manager.get plain mgr one_key 1 ≡ Manager.get plain after_rotation.memtable one_key 1)
recover_memtable-Run_example =
    recover_memtable-Run none_sum none_sum-lt plain unbounded after_rotation (one_batch ∷ [])
      after_rotation.wal.dir 0 4096 4 one_key 1 after_rotation-Run (same after_rotation.wal.dir)
      (omega arith) one_key-Apart

abbrev nine : Row → Option Bytes
nine r = some (9 ∷ [])

abbrev finds_none : List FieldValue → Result (Option Row)
finds_none pk = ok none

abbrev one_put : Mutation
one_put = record {
  pk_values = FieldValue.boolean true ∷ [];
  row = some (record { fields = some (FieldValue.boolean true) ∷ [] });
  op_type = OpType.put;
}

one_put_encoded : encode_ops nine finds_none (one_put ∷ []) fresh.schema ≡ ok (one_op ∷ [])
unfolding encode_ops op_value encode_user_key encode_pk_fields encode_pk_loop encode_field
    encode_row
one_put_encoded = refl

one_put_applied :
    apply_mutations none_sum plain unbounded nine finds_none true fresh (one_put ∷ [])
    ≡ ok (1, after_put)
unfolding apply_mutations validate_ops validate check_fields check_field check_value forget_ops
    rotate_full
one_put_applied = rw (one_put_encoded, put_written) refl

fresh-Run : Run none_sum plain unbounded fresh []
unfolding open_dir
fresh-Run = opened fresh 1 4096 4 1 refl refl (omega arith) (omega arith)

apply_mutations-Run_example :
    (1 ≡ fresh.global_seq)
    × Effect none_sum plain unbounded true fresh after_put (one_op ∷ [])
    × Run none_sum plain unbounded after_put ([] ++ one_batch ∷ [])
unfolding open_dir
apply_mutations-Run_example =
    apply_mutations-Run none_sum plain unbounded nine finds_none true fresh after_put [] one_put []
      (one_op ∷ []) 1 fresh-Run one_put_encoded ((omega arith, omega arith), tt) (omega arith)
      (omega arith) (omega arith) one_put_applied
