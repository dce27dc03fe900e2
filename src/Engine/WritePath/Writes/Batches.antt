-- ===== src/Engine/WritePath/Writes/Batches.antt =====
-- Lists of batches (wal/batch.rs), and the versions they add to a history; the batch that a write builds
-- (engine/write_path.rs).
use merutable.Bytes.{Bytes}
use merutable.Engine.WritePath.{EncodedOp, fill_batch}
use merutable.Memtable.Skiplist.Lookup.{Version}
use merutable.Memtable.Table.History.{history_of, Follows}
use merutable.Types.Sequence.{SeqNum, OpType, seqnum_max}
use merutable.Wal.Batch
use merutable.Wal.Batch.{BatchRecord, WriteBatch, last_seq}
use merutable.Wal.Batch.RoundTrip.{Fits}
use merutable.Wal.Manager.{WalManager, append as wal_append, rotate as wal_rotate}
use merutable.Wal.Manager.Recovered.{Log}
use merutable.Prelude.{
  List, length, ◌<◌, ◌++◌, All, ◌∷◌, [], ◌≡◌, ◌^◌, ◌+◌, arith, refl, All-map, some, subst,
  All-append, length-append, ap, ℕ, sym, append-nil, ◌∙◌, ◌≤◌, append_assoc,
}

-- The history after batches, newest version first
abbrev pub history : List Version → List WriteBatch → List Version
history h [] = h
history h (b ∷ bs) = history (history_of b.sequence b.records h) bs

-- Each batch has sequence numbers above all before it.
abbrev pub Chain : List Version → List WriteBatch → Type 0
Chain h [] = Unit
Chain h (b ∷ bs) = Follows b.sequence b.records h × Chain (history_of b.sequence b.records h) bs

pub history-append :
    (h : List Version) (bs : List WriteBatch) (b : WriteBatch)
    → history h (bs ++ b ∷ []) ≡ history_of b.sequence b.records (history h bs)
history-append h [] b = refl
history-append h (c ∷ bs) b = history-append (history_of c.sequence c.records h) bs b

pub Chain-append :
    (h : List Version) (bs : List WriteBatch) (b : WriteBatch)
    → Chain h bs
    → Follows b.sequence b.records (history h bs)
    → Chain h (bs ++ b ∷ [])
Chain-append h [] b c f = (f, tt)
Chain-append h (d ∷ bs) b (g, c) f = (g, Chain-append (history_of d.sequence d.records h) bs b c f)

abbrev version_of : BatchRecord → SeqNum → Version
version_of r seq = record {
  user_key = r.user_key;
  seq = seq;
  entry = record { op_type = r.op_type; value = Batch.value_bytes r.value };
}

-- The versions of a batch lie below the number after it.
pub history_of-below :
    (rs : List BatchRecord) (seq : SeqNum) (h : List Version)
    → All (λ v. v.seq < seq) h
    → All (λ v. v.seq < seq + length rs) (history_of seq rs h)
unfolding history_of
history_of-below [] seq h a = All-map _ _ (λ v p. omega (arith, p)) h a
history_of-below (r ∷ rs) seq h a =
    subst (λ n. All (λ v. v.seq < n) (history_of (seq + 1) rs (version_of r seq ∷ h))) (omega arith)
      (history_of-below rs (seq + 1) (version_of r seq ∷ h)
        (omega arith, All-map _ _ (λ v p. omega (arith, p)) h a))

-- An operation whose lengths fit the fields of the log
abbrev pub FitsLog : EncodedOp → Type 0
FitsLog op = (length op.user_key_bytes < 2 ^ 64) × (length op.value_bytes < 2 ^ 64)

-- One operation in the batch
abbrev filled : WriteBatch → EncodedOp → WriteBatch
filled b op = record b {
  records =
      b.records
      ++ record { op_type = op.op_type; user_key = op.user_key_bytes; value = some op.value_bytes }
        ∷ [];
}

fill_batch-cons :
    (op : EncodedOp) (ops : List EncodedOp) (b : WriteBatch)
    → fill_batch b (op ∷ ops) ≡ fill_batch (filled b op) ops
unfolding fill_batch Batch.put Batch.delete_with_pre_image
fill_batch-cons op ops b =
    ap (λ c. fill_batch c ops) (go op.op_type op.user_key_bytes op.value_bytes)
  where
    go :
        (o : OpType) (key value : Bytes)
        → elim o [
          | OpType.put ↦ Batch.put b key value
          | OpType.delete ↦ Batch.delete_with_pre_image b key value
        ]
          ≡ record b {
            records = b.records ++ record { op_type = o; user_key = key; value = some value } ∷ [];
          }
    go OpType.put key value = refl
    go OpType.delete key value = refl

pub fill_batch-records :
    (ops : List EncodedOp) (b : WriteBatch)
    → All FitsLog ops
    → All Fits b.records
    → ((fill_batch b ops).sequence ≡ b.sequence)
      × (length (fill_batch b ops).records ≡ length b.records + length ops)
      × All Fits (fill_batch b ops).records
fill_batch-records [] b a f = unfold fill_batch in (refl, omega arith, f)
fill_batch-records (op ∷ ops) b (p, a) f =
    let rest = fill_batch-records ops (filled b op) a (All-append Fits b.records _ f (p, tt)) in
    let one = length-append b.records (
      record { op_type = op.op_type; user_key = op.user_key_bytes; value = some op.value_bytes }
      ∷ []) in
    rw (fill_batch-cons op ops b) (rest.0, omega (arith, rest.1, one), rest.2)

pub flushed_seq-append :
    (crc : Bytes → ℕ) (m : WalManager) (b : WriteBatch)
    → (wal_append crc m b).flushed_seq ≡ m.flushed_seq
unfolding wal_append
flushed_seq-append crc m b = refl

pub flushed_seq-rotate : (m : WalManager) → (wal_rotate m).1.flushed_seq ≡ m.flushed_seq
unfolding wal_rotate
flushed_seq-rotate m = refl

pub last_seq-positive :
    (b : WriteBatch)
    → 1 < b.sequence + length b.records
    → b.sequence + length b.records ≤ seqnum_max
    → 0 < last_seq b
unfolding last_seq
last_seq-positive b h g = omega arith

-- The batches of the logs, in their order
abbrev pub batches : List Log → List WriteBatch
batches [] = []
batches (l ∷ ls) = l.1 ++ batches ls

pub batches-append : (ls : List Log) (l : Log) → batches (ls ++ l ∷ []) ≡ batches ls ++ l.1
batches-append [] l = append-nil l.1
batches-append (k ∷ ls) l =
    ap (λ r. k.1 ++ r) (batches-append ls l) ∙ sym (append_assoc k.1 (batches ls) l.1)
