-- ===== src/Engine/WritePath.antt =====
-- engine/write_path.rs: a batch of mutations, from validation to the rotation of a full memtable, and the
-- part of `open` of engine/engine.rs that brings the log back into a memtable. The encoding
-- of a row by postcard is a parameter, and so is the lookup of the row before a delete; what the loops wait for has
-- happened. Everything under the lock of the log is one function of the state.
pub mod Writes
pub mod Numbers
pub mod Effects
pub mod Mutations
pub mod Durable
mod Examples
use merutable.Bytes.{Bytes}
use merutable.Prelude.MeruError.{schema_mismatch, read_only, closed}
use merutable.Engine.Codec.{encode_row}
use merutable.Engine.Cache.{LruCache, RowCache, invalidate}
use merutable.Memtable.Manager
use merutable.Memtable.Manager.{MemtableManager}
use merutable.Memtable.SkipMap.{SkipMap}
use merutable.Memtable.Skiplist.{EntryValue}
use merutable.Memtable.Table
use merutable.Types.Key.{encode_user_key}
use merutable.Types.Row.{validate}
use merutable.Types.Schema.{TableSchema}
use merutable.Types.Sequence.{SeqNum, OpType, allocate_n, set_at_least, next}
use merutable.Types.Value.{FieldValue, Row}
use merutable.Wal.Batch
use merutable.Wal.Batch.{WriteBatch}
use merutable.Wal.Manager.{append as wal_append, rotate as wal_rotate}
use merutable.Wal.Manager.{WalManager, Directory, recover_from_dir}
use merutable.Prelude.{
  panic, ◌>>=◌, Bool, Result, List, ℕ, ◌∷◌, Option, if◌then◌else◌, ok, length, err, [], ◌&&◌, some,
  none, ◌>>◌, guard, not, max, ◌+◌, ◌^◌, ◌%◌, ◌-◌,
}

pub record Mutation : Type 0 where
  pub pk_values : List FieldValue
  pub row : Option Row
  pub op_type : OpType

pub record EncodedOp : Type 0 where
  pub user_key_bytes : Bytes
  pub value_bytes : Bytes
  pub op_type : OpType

-- The fields of `MeruEngine` that a write reads or changes
pub record Engine (Map CacheMap : Type 0) : Type 0 where
  pub schema : TableSchema
  pub read_only : Bool
  pub closed : Bool
  pub global_seq : ℕ
  pub visible_seq : ℕ
  pub wal : WalManager
  pub memtable : MemtableManager Map
  pub row_cache : Option (RowCache CacheMap)

-- `map_err`
abbrev pub as_mismatch : Result (Unit {0}) → Result (Unit {0})
as_mismatch (ok done) = ok tt
as_mismatch (err reason) = err schema_mismatch
as_mismatch panic = panic

-- The loop that validates the rows of puts
unfoldable pub validate_ops : List Mutation → TableSchema → Result (Unit {0})
validate_ops [] schema = ok tt
validate_ops (m ∷ ms) schema =
    let rest = validate_ops ms schema in
    elim m.op_type [
      | OpType.delete ↦ rest
      | OpType.put ↦ elim m.row [
        | none ↦ rest
        | some row ↦ as_mismatch (validate row schema) >> rest
      ]
    ]

-- The bytes of a row that may be missing
abbrev pub row_bytes : (Row → Option Bytes) → Option Row → Result Bytes
row_bytes to_allocvec none = ok []
row_bytes to_allocvec (some row) = encode_row to_allocvec row

module _ (to_allocvec : Row → Option Bytes)
    (point_lookup : List FieldValue → Result (Option Row)) where
  unfoldable pub op_value : Mutation → Result Bytes
  op_value m = elim m.op_type [
    | OpType.put ↦ row_bytes to_allocvec m.row
    | OpType.delete ↦ (do pre_image ← point_lookup m.pk_values; row_bytes to_allocvec pre_image)
  ]

  -- The loop that encodes the operations
  unfoldable pub encode_ops : List Mutation → TableSchema → Result (List EncodedOp)
  encode_ops [] schema = ok []
  encode_ops (m ∷ ms) schema = do
    user_key_bytes ← encode_user_key m.pk_values schema
    value_bytes ← op_value m
    ops ← encode_ops ms schema
    ok (
        record { user_key_bytes = user_key_bytes; value_bytes = value_bytes; op_type = m.op_type }
        ∷ ops)

-- The loop that builds the batch for the log
unfoldable pub fill_batch : WriteBatch → List EncodedOp → WriteBatch
fill_batch b [] = b
fill_batch b (op ∷ ops) =
    fill_batch
      (elim op.op_type [
        | OpType.put ↦ Batch.put b op.user_key_bytes op.value_bytes
        | OpType.delete ↦ Batch.delete_with_pre_image b op.user_key_bytes op.value_bytes
      ])
      ops

module _ (crc : Bytes → ℕ) (S : SkipMap EntryValue) (L : LruCache) where
  -- What runs under the lock of the log: the sequence number, whether the memtable is full, the state
  unfoldable pub write_locked :
      Engine S.Map L.Map → List EncodedOp → Result (SeqNum × Bool × Engine S.Map L.Map)
  write_locked e ops =
      let (base_seq, counter) = allocate_n e.global_seq (length ops) in
      let wal_batch = fill_batch (Batch.new base_seq) ops in
      do
        (should_flush, memtable) ← Manager.apply_batch S e.memtable wal_batch
        ok (
          base_seq,
          should_flush,
          record e {
            global_seq = counter;
            wal = wal_append crc e.wal wal_batch;
            memtable = memtable;
            visible_seq =
                set_at_least e.visible_seq ((base_seq + length ops + 2 ^ 64 - 1) % 2 ^ 64);
          },
        )

  -- The loop that invalidates the cache
  unfoldable pub invalidate_all : RowCache L.Map → List EncodedOp → RowCache L.Map
  invalidate_all cache [] = cache
  invalidate_all cache (op ∷ ops) = invalidate_all (invalidate L cache op.user_key_bytes) ops

  unfoldable pub forget_ops : Engine S.Map L.Map → List EncodedOp → Engine S.Map L.Map
  forget_ops e ops = elim e.row_cache [
    | none ↦ e
    | some cache ↦ record e { row_cache = some (invalidate_all cache ops) }
  ]

  -- The rotation of the memtable and of the log; `unlocked` says whether `try_lock` succeeds.
  unfoldable pub rotate_full : Bool → Bool → Engine S.Map L.Map → Engine S.Map L.Map
  rotate_full unlocked should_flush e =
      if should_flush && (unlocked && Table.should_flush S e.memtable.active)
      then record e {
        memtable = (Manager.rotate S e.memtable (next e.global_seq)).1;
        wal = (wal_rotate e.wal).1;
      }
      else e

  -- `apply_batch`
  module _ (to_allocvec : Row → Option Bytes)
      (point_lookup : List FieldValue → Result (Option Row)) where
    unfoldable pub apply_mutations :
        Bool → Engine S.Map L.Map → List Mutation → Result (SeqNum × Engine S.Map L.Map)
    apply_mutations unlocked e [] = ok (e.visible_seq, e)
    apply_mutations unlocked e (m ∷ ms) = do
      guard (not e.read_only) read_only
      guard (not e.closed) closed
      validate_ops (m ∷ ms) e.schema
      ops ← encode_ops to_allocvec point_lookup (m ∷ ms) e.schema
      (base_seq, should_flush, written) ← write_locked e ops
      ok (base_seq, rotate_full unlocked should_flush (forget_ops written ops))

module _ (S : SkipMap EntryValue) where
  -- The loop of `open` over the recovered batches
  unfoldable pub replay : MemtableManager S.Map → List WriteBatch → Result (MemtableManager S.Map)
  replay mgr [] = ok mgr
  replay mgr (b ∷ bs) = do (should_flush, mgr) ← Manager.apply_batch S mgr b; replay mgr bs

module _ (crc : Bytes → ℕ) (S : SkipMap EntryValue) where
  -- What `open` makes of the directory of the log: the counter, and the memtables
  unfoldable pub recover_memtable : Directory → SeqNum → ℕ → ℕ → Result (ℕ × MemtableManager S.Map)
  recover_memtable dir iceberg_max_seq flush_threshold max_immutable = do
    (batches, wal_max_seq, max_log_number) ← recover_from_dir crc dir
    let init_seq = (max wal_max_seq iceberg_max_seq + 1) % 2 ^ 64
    memtable ← replay S (Manager.new S init_seq flush_threshold max_immutable) batches
    ok (init_seq, memtable)
