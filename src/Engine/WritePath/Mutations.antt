-- ===== src/Engine/WritePath/Mutations.antt =====
-- `apply_batch` of engine/write_path.rs as a whole: what it leaves is what its steps under the lock of
-- the log and its rotation lead to.
use merutable.Bytes.{Bytes}
use merutable.Engine.Cache.{LruCache}
use merutable.Engine.WritePath.{
  Engine, EncodedOp, Mutation, apply_mutations, encode_ops, fill_batch, forget_ops, rotate_full,
  validate_ops, write_locked, op_value, invalidate_all,
}
use merutable.Engine.WritePath.Effects.{Effect}
use merutable.Engine.WritePath.Effects.Steps.{steps-Effect}
use merutable.Engine.WritePath.Writes.{
  Run, written, forgot, memtable_rotated, wal_rotated, written-parts,
}
use merutable.Engine.WritePath.Writes.Batches.{FitsLog}
use merutable.Memtable.SkipMap.{SkipMap}
use merutable.Memtable.Skiplist.{EntryValue}
use merutable.Memtable.Table
use merutable.Types.Key.{encode_user_key}
use merutable.Types.Schema.{TableSchema}
use merutable.Types.Sequence.{SeqNum, seqnum_max, next}
use merutable.Prelude.{>>-eq-ok, some, none, All, ◌≤◌, ◌++◌, arith, Bool-cases, ok_inj}
use merutable.Types.Value.{FieldValue, Row}
use merutable.Wal.Batch
use merutable.Wal.Batch.{WriteBatch}
use merutable.Memtable.Manager
use merutable.Wal.Manager.{WalManager, append as wal_append}
use merutable.Engine.Cache.{RowCache}
use merutable.Types.Sequence.{allocate_n}
use merutable.Prelude.{>>=-eq-ok, inl, inr, subst, refl}
use merutable.Prelude.{
  ℕ, Result, ok, ◌≡◌, List, Bool, Option, ◌+◌, length, ◌<◌, ◌∷◌, ◌^◌, >>=-eq-ok, ap, ◌&&◌, guard,
  sym, not, ◌∙◌, read_only, closed, suc, [],
}

module _ (to_allocvec : Row → Option Bytes)
    (point_lookup : List FieldValue → Result (Option Row)) where
  length-encode_ops :
      (ms : List Mutation) (schema : TableSchema) (ops : List EncodedOp)
      → encode_ops to_allocvec point_lookup ms schema ≡ ok ops
      → length ops ≡ length ms
  unfolding encode_ops
  length-encode_ops [] schema ops h = ap length (sym (ok_inj h))
  length-encode_ops (m ∷ ms) schema ops h =
      let (k, p, h1) = >>=-eq-ok (encode_user_key m.pk_values schema) _ h in
      let (v, q, h2) = >>=-eq-ok (op_value to_allocvec point_lookup m) _ h1 in
      let (rest, r, h3) = >>=-eq-ok (encode_ops to_allocvec point_lookup ms schema) _ h2 in
      ap length (sym (ok_inj h3)) ∙ ap suc (length-encode_ops ms schema rest r)

module _ (crc : Bytes → ℕ) (S : SkipMap EntryValue) (L : LruCache) where
  -- A run that leaves the number of the next log
  abbrev SameNext : Engine S.Map L.Map → List WriteBatch → Engine S.Map L.Map → Type 0
  SameNext e log x = Run crc S L x log × (x.wal.next_log ≡ e.wal.next_log)

  forget_ops-SameNext :
      (e : Engine S.Map L.Map) (ops : List EncodedOp) (log : List WriteBatch)
      → Run crc S L e log
      → SameNext e log (forget_ops crc S L e ops)
  unfolding forget_ops
  forget_ops-SameNext e ops log r = go e.row_cache
    where
      go :
          (c : Option (RowCache L.Map))
          → SameNext e log (elim c [
            | none ↦ e
            | some cache ↦ record e { row_cache = some (invalidate_all crc S L cache ops) }
          ])
      go none = (r, refl)
      go (some cache) = (forgot e log _ r, refl)

  rotate_full-Run :
      (unlocked should_flush : Bool) (e : Engine S.Map L.Map) (log : List WriteBatch)
      → Run crc S L e log
      → e.wal.next_log + 1 < 2 ^ 64
      → Run crc S L (rotate_full crc S L unlocked should_flush e) log
  unfolding rotate_full
  rotate_full-Run unlocked should_flush e log r few =
      elim (Bool-cases (should_flush && (unlocked && Table.should_flush S e.memtable.active))) [
        | inl t ↦ rw t (wal_rotated _ log (memtable_rotated e log (next e.global_seq) r) few)
        | inr f ↦ rw f r
      ]

  next_log-append : (m : WalManager) (b : WriteBatch) → (wal_append crc m b).next_log ≡ m.next_log
  unfolding wal_append
  next_log-append m b = refl

  write_locked-base :
      (e e' : Engine S.Map L.Map) (ops : List EncodedOp) (base : SeqNum) (full : Bool)
      → write_locked crc S L e ops ≡ ok (base, full, e')
      → base ≡ e.global_seq
  unfolding write_locked allocate_n
  write_locked-base e e' ops base full h =
      let ((f, m), q, k) =
        >>=-eq-ok (Manager.apply_batch S e.memtable (fill_batch (Batch.new e.global_seq) ops)) _
          h in
      sym (ap (λ (t : SeqNum × Bool × Engine S.Map L.Map). t.0) (ok_inj k))

  module _ (to_allocvec : Row → Option Bytes)
      (point_lookup : List FieldValue → Result (Option Row)) where
    -- A write under the lock, the change to the cache and the rotation
    abbrev Steps : Bool → Engine S.Map L.Map → Engine S.Map L.Map → SeqNum → List EncodedOp → Type 0
    Steps unlocked e e' base ops =
        (full : Bool) × (done : Engine S.Map L.Map) × (write_locked crc S L e ops
          ≡ ok (base, full, done))
        × (e' ≡ rotate_full crc S L unlocked full (forget_ops crc S L done ops))

    apply_mutations-Steps :
        (unlocked : Bool) (e e' : Engine S.Map L.Map) (m : Mutation) (ms : List Mutation)
        (ops : List EncodedOp) (base : SeqNum)
        → encode_ops to_allocvec point_lookup (m ∷ ms) e.schema ≡ ok ops
        → apply_mutations crc S L to_allocvec point_lookup unlocked e (m ∷ ms) ≡ ok (base, e')
        → Steps unlocked e e' base ops
    unfolding apply_mutations
    apply_mutations-Steps unlocked e e' m ms ops base encoded h =
        let (open_, h1) = >>-eq-ok (guard (not e.read_only) read_only) _ h in
        let (running, h2) = >>-eq-ok (guard (not e.closed) closed) _ h1 in
        let (valid, h3) = >>-eq-ok (validate_ops (m ∷ ms) e.schema) _ h2 in
        let (found, s, h4) =
          >>=-eq-ok (encode_ops to_allocvec point_lookup (m ∷ ms) e.schema) _ h3 in
        let ((n, full, done), t, h5) = >>=-eq-ok (write_locked crc S L e found) _ h4 in
        let last = ok_inj h5 in
        subst (Steps unlocked e e' base) (ok_inj (sym s ∙ encoded)) (
          full,
          done,
          t ∙ ap (λ (k : SeqNum × Engine S.Map L.Map). ok (k.0, full, done)) last,
          sym (ap (λ (k : SeqNum × Engine S.Map L.Map). k.1) last),
        )

    abbrev pub written_batch : Engine S.Map L.Map → List EncodedOp → WriteBatch
    written_batch e ops = fill_batch (Batch.new e.global_seq) ops

    -- An engine that writes and rotations lead to is written by `apply_batch`, with success and with at
    -- least one mutation. The call returns the sequence number that the counter stood at. Of the
    -- engine it leaves, the memtables and the log are those of before with the batch of the encoded
    -- operations applied and appended; both are rotated if the active memtable is then full and the
    -- lock of the rotation is free, and neither is rotated otherwise. The cache, if there is one, has
    -- no entry for the keys of the operations and for each other key the entry it had, and its
    -- generation has moved once for each operation. The counter has moved past the operations, the
    -- visible number is the greater of that of before and the last of theirs, and the schema and the
    -- flags are the same. It is again an engine that writes and rotations lead to, with the batch as
    -- the last of its log. The counter does not pass `SEQNUM_MAX`, log numbers do not reach 2^64, there
    -- are fewer than 2^32 operations, and they fit the fields of the log.
    pub apply_mutations-Run :
        (unlocked : Bool) (e e' : Engine S.Map L.Map) (log : List WriteBatch) (m : Mutation)
        (ms : List Mutation) (ops : List EncodedOp) (base : SeqNum)
        → Run crc S L e log
        → encode_ops to_allocvec point_lookup (m ∷ ms) e.schema ≡ ok ops
        → All FitsLog ops
        → e.global_seq + length (m ∷ ms) ≤ seqnum_max
        → length (m ∷ ms) < 2 ^ 32
        → e.wal.next_log + 1 < 2 ^ 64
        → apply_mutations crc S L to_allocvec point_lookup unlocked e (m ∷ ms) ≡ ok (base, e')
        → (base ≡ e.global_seq)
          × Effect crc S L unlocked e e' ops
          × Run crc S L e' (log ++ written_batch e ops ∷ [])
    apply_mutations-Run unlocked e e' log m ms ops base r encoded fit room few logs h =
        let (full, done, t, last) = apply_mutations-Steps unlocked e e' m ms ops base encoded h in
        let count = length-encode_ops to_allocvec point_lookup (m ∷ ms) e.schema ops encoded in
        let after_write =
          written e done log ops base full r (omega (arith, count, room)) (omega (arith, count))
            (omega (arith, count, few)) fit t in
        let (b, w, g) = written-parts crc S L e done ops base full t in
        let same_next : done.wal.next_log ≡ e.wal.next_log =
          ap (λ (v : WalManager). v.next_log) w ∙ next_log-append e.wal (written_batch e ops) in
        let (forgotten, kept) =
          forget_ops-SameNext done ops (log ++ written_batch e ops ∷ []) after_write in
        (
          write_locked-base e done ops base full t,
          steps-Effect crc S L unlocked e done e' ops base full (omega (arith, count))
              (omega (arith, count, room)) t last,
          subst (λ x. Run crc S L x (log ++ written_batch e ops ∷ [])) (sym last)
              (rotate_full-Run unlocked full _ _ forgotten (omega (arith, kept, same_next, logs))),
        )
