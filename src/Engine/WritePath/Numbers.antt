-- ===== src/Engine/WritePath/Numbers.antt =====
-- The sequence numbers that recovery finds in the log (wal/manager.rs, engine/engine.rs).
use merutable.Engine.WritePath.Writes.Batches.{history, Chain, batches, history_of-below}
use merutable.Memtable.Manager.Refinement.{All-parts}
use merutable.Memtable.Skiplist.Lookup.{Version}
use merutable.Memtable.Table.History.{history_of, Follows}
use merutable.Types.Sequence.{SeqNum, seqnum_max}
use merutable.Wal.Batch.{WriteBatch, last_seq}
use merutable.Wal.Manager.{raised}
use merutable.Wal.Manager.Recovered.{Log, greatest, greatest_of}
use merutable.Prelude.{List, ◌≤◌, All, arith, ◌∷◌, ◌+◌, [], All-append, length, All-map}

greatest-bounds :
    (most m : SeqNum) (bs : List WriteBatch)
    → m ≤ most
    → All (λ b. last_seq b ≤ most) bs
    → (m ≤ greatest m bs) × (greatest m bs ≤ most) × All (λ b. last_seq b ≤ greatest m bs) bs
greatest-bounds most m [] h a = (omega arith, h, tt)
greatest-bounds most m (b ∷ bs) h (p, a) =
    let (lo, hi, each) = greatest-bounds most (raised m (last_seq b)) bs (ground (arith, p, h)) a in
    (ground (arith, lo), hi, (ground (arith, lo), each))

pub greatest_of-bounds :
    (most m : SeqNum) (ls : List Log)
    → m ≤ most
    → All (λ b. last_seq b ≤ most) (batches ls)
    → (m ≤ greatest_of m ls)
      × (greatest_of m ls ≤ most)
      × All (λ b. last_seq b ≤ greatest_of m ls) (batches ls)
greatest_of-bounds most m [] h a = (omega arith, h, tt)
greatest_of-bounds most m (l ∷ ls) h a =
    let (here, later) = All-parts _ l.1 (batches ls) a in
    let (lo, hi, each) = greatest-bounds most m l.1 h here in
    let (lo_rest, hi_rest, each_rest) = greatest_of-bounds most (greatest m l.1) ls hi later in
    (
      omega (arith, lo, lo_rest),
      hi_rest,
      All-append _ l.1 (batches ls) (All-map _ _ (λ b p. omega (arith, p, lo_rest)) l.1 each)
          each_rest,
    )

-- The last sequence number of a batch that follows a history does not wrap around.
last_seq-Follows :
    (b : WriteBatch) (h : List Version)
    → Follows b.sequence b.records h
    → (last_seq b ≤ seqnum_max) × (b.sequence + length b.records ≤ last_seq b + 1)
unfolding last_seq
last_seq-Follows b h f = (omega (arith, f.1), omega (arith, f.1))

pub last_seq-Chain :
    (h : List Version) (bs : List WriteBatch) → Chain h bs → All (λ b. last_seq b ≤ seqnum_max) bs
last_seq-Chain h [] c = tt
last_seq-Chain h (b ∷ bs) (f, c) =
    ((last_seq-Follows b h f).0, last_seq-Chain (history_of b.sequence b.records h) bs c)

-- The versions of batches lie at or below what the last numbers of the batches do.
pub history-bounded :
    (bs : List WriteBatch) (h : List Version) (most : SeqNum)
    → Chain h bs
    → All (λ v. v.seq ≤ most) h
    → All (λ b. last_seq b ≤ most) bs
    → All (λ v. v.seq ≤ most) (history h bs)
history-bounded [] h most c a l = a
history-bounded (b ∷ bs) h most (f, c) a (p, l) =
    let reach = (last_seq-Follows b h f).1 in
    history-bounded bs _ most c
      (All-map _ _ (λ v q. omega (arith, q, p, reach)) _
        (history_of-below b.records b.sequence h f.0))
      l
