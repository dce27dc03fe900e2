-- ===== src/Wal/Manager/Recovery.antt =====
-- Recovery from the directory of a manager that was in use (wal/manager.rs).
use merutable.Bytes.{Bytes}
use merutable.Wal.Batch.{WriteBatch}
use merutable.Wal.Manager.{
  ClosedLog, WalManager, remove_file, raised, to_delete, keep, delete_logs, mark_flushed_seq,
  register_closed_log, recover_from_dir, recover_logs, sort_logs,
}
use merutable.Wal.Manager.Listing.{Ascending, Rearranged, sort_logs-Rearranged, sort_logs-Ascending}
use merutable.Wal.Manager.Recovered.{
  Log, IsWritable, file_of, all_batches, read_back, greatest_of, highest, recover_logs-file_of,
}
use merutable.Wal.Manager.Logs.{
  IsFlushed, Survives, Survives-mono, Survives-without, without, without-All, without-Ascending,
  remove_file-files, files-append, Ascending-append, Survives-All,
}
use merutable.Wal.Manager.Runs.{
  Covers, Holds, Run, opened, appended, rotated, flushed, registered, opened-Holds, appended-Holds,
  rotated-Holds,
}
use merutable.Types.Sequence.{SeqNum}
use merutable.Prelude.{
  ℕ, List, Bool, map, ◌<◌, ◌≤◌, ◌∷◌, All, ◌++◌, Bool-cases, ◌^◌, arith, All-map, ap, [], All-append,
  ◌∙◌, inl, leb, ◌≡◌, leb→le, ok, append-nil, inr, sym, append_assoc,
}

-- What the two halves of the partition are
to_delete-All :
    (P : ClosedLog → Type 0) (seq : SeqNum) (cs : List ClosedLog)
    → All P cs
    → All (λ c. (c.max_seq ≤ seq) × P c) (to_delete seq cs)
unfolding to_delete
to_delete-All P seq [] h = tt
to_delete-All P seq (c ∷ cs) (p, h) = elim (Bool-cases (leb c.max_seq seq)) [
  | inl t ↦ rw t ((leb→le c.max_seq seq t, p), to_delete-All P seq cs h)
  | inr u ↦ rw u (to_delete-All P seq cs h)
]

keep-All :
    (P : ClosedLog → Type 0) (seq : SeqNum) (cs : List ClosedLog) → All P cs → All P (keep seq cs)
unfolding keep
keep-All P seq [] h = tt
keep-All P seq (c ∷ cs) (p, h) = elim (Bool-cases (leb c.max_seq seq)) [
  | inl t ↦ rw t (keep-All P seq cs h)
  | inr u ↦ rw u (p, keep-All P seq cs h)
]

Covers-without :
    (ks : List Log) (current n : ℕ) (cs : List ClosedLog)
    → All (Covers ks current) cs
    → All (Covers (without n ks) current) cs
Covers-without ks current n cs h =
    All-map _ _
      (λ c p. (p.0, without-All (λ l. l.0 ≡ c.log_number → IsFlushed c.max_seq l) n ks p.1)) cs h

module _ (crc : Bytes → ℕ) (past : List Log) (cur : List WriteBatch) where
  -- A log whose removal failed waits for the next time.
  requeued-Holds :
      (mgr : WalManager) (kept : List Log) (cs : List ClosedLog)
      → Holds crc mgr past cur kept
      → All (Covers kept mgr.log_number) cs
      → Holds crc (record mgr { closed_logs = mgr.closed_logs ++ cs }) past cur kept
  requeued-Holds mgr kept cs q h = record {
    listed = q.listed;
    survives = q.survives;
    older = q.older;
    rising = q.rising;
    writable = q.writable;
    cur_writable = q.cur_writable;
    writer = q.writer;
    cur_max = q.cur_max;
    covered = All-append (Covers kept mgr.log_number) mgr.closed_logs cs q.covered h;
    next = q.next;
  }

  removed-Holds :
      (mgr : WalManager) (kept : List Log) (c : ClosedLog)
      → Holds crc mgr past cur kept
      → Covers kept mgr.log_number c
      → c.max_seq ≤ mgr.flushed_seq
      → Holds crc
          (record mgr { dir = remove_file mgr.dir c.log_number })
          past
          cur
          (without c.log_number kept)
  removed-Holds mgr kept c q (lt, bound) le = record {
    listed =
        ap (λ d. remove_file d c.log_number) q.listed
        ∙ remove_file-files crc kept c.log_number mgr.log_number _
            (λ e. absurd (omega (arith, e, lt)));
    survives =
        Survives-without mgr.flushed_seq c.log_number past kept q.survives
          (All-map _ _ (λ l p e. All-map _ _ (λ b m. omega (arith, m, le)) l.1 (p e)) kept bound);
    older = without-All (λ l. l.0 < mgr.log_number) c.log_number kept q.older;
    rising = without-Ascending c.log_number kept q.rising;
    writable = without-All (λ l. All IsWritable l.1) c.log_number kept q.writable;
    cur_writable = q.cur_writable;
    writer = q.writer;
    cur_max = q.cur_max;
    covered = Covers-without kept mgr.log_number c.log_number mgr.closed_logs q.covered;
    next = q.next;
  }

  delete_logs-Holds :
      (fails : ℕ → Bool) (cs : List ClosedLog) (mgr : WalManager) (kept : List Log)
      → Holds crc mgr past cur kept
      → All (λ c. (c.max_seq ≤ mgr.flushed_seq) × Covers kept mgr.log_number c) cs
      → (kept' : List Log) × Holds crc (delete_logs fails cs mgr) past cur kept'
  unfolding delete_logs
  delete_logs-Holds fails [] mgr kept q h = (kept, q)
  delete_logs-Holds fails (c ∷ cs) mgr kept q (p, h) = elim (Bool-cases (fails c.log_number)) [
    | inl t ↦
        rw t (delete_logs-Holds fails cs _ kept (requeued-Holds mgr kept (c ∷ []) q (p.1, tt)) h)
    | inr u ↦ rw u (
        delete_logs-Holds fails cs _ (without c.log_number kept)
          (removed-Holds mgr kept c q p.1 p.0)
          (All-map _ _
            (λ d r. (
              r.0,
              (
                r.1.0,
                without-All (λ l. l.0 ≡ d.log_number → IsFlushed d.max_seq l) c.log_number kept
                    r.1.1,
              ),
            ))
            cs h))
  ]

  flushed-Holds :
      (fails : ℕ → Bool) (mgr : WalManager) (kept : List Log) (seq : SeqNum)
      → Holds crc mgr past cur kept
      → (kept' : List Log) × Holds crc (mark_flushed_seq fails mgr seq) past cur kept'
  unfolding mark_flushed_seq
  flushed-Holds fails mgr kept seq q =
      let reached : mgr.flushed_seq ≤ raised mgr.flushed_seq seq = ground arith in
      let seq_le : seq ≤ raised mgr.flushed_seq seq = ground arith in
      delete_logs-Holds fails (to_delete seq mgr.closed_logs) _ kept
        (record {
          listed = q.listed;
          survives =
              Survives-mono mgr.flushed_seq (raised mgr.flushed_seq seq) past kept reached
                q.survives;
          older = q.older;
          rising = q.rising;
          writable = q.writable;
          cur_writable = q.cur_writable;
          writer = q.writer;
          cur_max = q.cur_max;
          covered = keep-All (Covers kept mgr.log_number) seq mgr.closed_logs q.covered;
          next = q.next;
        })
        (All-map _ _ (λ c p. (omega (arith, p.0, seq_le), p.1)) (to_delete seq mgr.closed_logs)
          (to_delete-All (Covers kept mgr.log_number) seq mgr.closed_logs q.covered))

module _ (crc : Bytes → ℕ) where
  Run-Holds :
      (mgr : WalManager) (past : List Log) (cur : List WriteBatch)
      → Run crc mgr past cur
      → (kept : List Log) × Holds crc mgr past cur kept
  unfolding register_closed_log
  Run-Holds a ps bs (opened past n r o w h) = (past, opened-Holds crc past n r o w h)
  Run-Holds a ps bs (appended mgr past cur b r w) =
      let (kept, q) = Run-Holds mgr past cur r in (kept, appended-Holds crc mgr past kept cur b q w)
  Run-Holds a ps bs (rotated mgr past cur r h) =
      let (kept, q) = Run-Holds mgr past cur r in (_, rotated-Holds crc mgr past kept cur q h)
  Run-Holds a ps bs (flushed mgr past cur fails seq r) =
      let (kept, q) = Run-Holds mgr past cur r in flushed-Holds crc past cur fails mgr kept seq q
  Run-Holds a ps bs (registered mgr past cur n seq r lt bound) =
      let (kept, q) = Run-Holds mgr past cur r in
      (
        kept,
        requeued-Holds crc past cur mgr kept (record { log_number = n; max_seq = seq } ∷ []) q (
          (
            lt,
            Survives-All mgr.flushed_seq (λ l. l.0 ≡ n → IsFlushed seq l) past kept q.survives
                bound,
          ),
          tt,
        ),
      )

highest-append :
    (n m : ℕ) (ls : List Log) (bs : List WriteBatch)
    → n ≤ m
    → All (λ l. l.0 < m) ls
    → highest n (ls ++ (m, bs) ∷ []) ≡ m
highest-append n m [] bs h o = ground arith
highest-append n m (l ∷ ls) bs h (p, o) =
    highest-append (raised n l.0) m ls bs (ground (arith, p)) o

all_batches-append :
    (ls : List Log) (n : ℕ) (bs : List WriteBatch)
    → all_batches (ls ++ (n, bs) ∷ []) ≡ all_batches ls ++ map read_back bs
all_batches-append [] n bs = append-nil (map read_back bs)
all_batches-append (l ∷ ls) n bs =
    ap (λ r. map read_back l.1 ++ r) (all_batches-append ls n bs)
    ∙ sym (append_assoc (map read_back l.1) (all_batches ls) (map read_back bs))

Ascending-files :
    (crc : Bytes → ℕ) (ls : List Log) → Ascending ls → Ascending (map (file_of crc) ls)
Ascending-files crc [] h = tt
Ascending-files crc (l ∷ ls) (p, h) = (above l.0 ls p, Ascending-files crc ls h)
  where
    above :
        (n : ℕ) (ls : List Log) → All (λ k. n < k.0) ls → All (λ f. n < f.0) (map (file_of crc) ls)
    above n [] h = tt
    above n (k ∷ ls) (q, h) = (q, above n ls h)

module _ (crc : Bytes → ℕ) (crc-lt : (b : Bytes) → crc b < 2 ^ 32) where
  -- `past` are the logs before the current one, with the batches that were appended to each, and `cur`
  -- are those of the current log. After `open` on a directory with the files of older logs, and any
  -- calls of `append`, `rotate`, `mark_flushed_seq` and `register_closed_log`, recovery from the
  -- directory, in whatever order it is listed, returns the batches of the logs that are still there
  -- and of the current one, in the order of the logs, each with missing values read as empty. Of the
  -- logs before the current one only such are gone all of whose batches end at or below the greatest
  -- number that was marked as flushed. It returns the greatest last sequence number of these batches,
  -- and the number of the current log. Batches fit the fields of the format, older logs have lower
  -- numbers, log numbers do not reach 2^64, a log is registered with a number that bounds its batches,
  -- and a removal of a file may fail. The checksum is any function into u32.
  pub recover_from_dir-Run :
      (mgr : WalManager) (past : List Log) (cur : List WriteBatch) (listing : List (ℕ × Bytes))
      → Run crc mgr past cur
      → Rearranged mgr.dir listing
      → (kept : List Log) × Survives mgr.flushed_seq past kept
        × (recover_from_dir crc listing
            ≡ ok (
              all_batches kept ++ map read_back cur,
              greatest_of 0 (kept ++ (mgr.log_number, cur) ∷ []),
              mgr.log_number,
            ))
  unfolding recover_from_dir
  recover_from_dir-Run mgr past cur listing r e =
      let (kept, q) = Run-Holds crc mgr past cur r in
      let cur_log : Log = (mgr.log_number, cur) in
      let listed = q.listed ∙ sym (files-append crc kept cur_log) in
      let rising =
        Ascending-files crc (kept ++ cur_log ∷ [])
          (Ascending-append kept cur_log q.rising q.older) in
      (
        kept,
        q.survives,
        ap (λ d. recover_logs crc d [] 0 0)
              (sym (sort_logs-Rearranged mgr.dir listing e)
                ∙ ap sort_logs listed
                ∙ sort_logs-Ascending (map (file_of crc) (kept ++ cur_log ∷ [])) rising)
            ∙ recover_logs-file_of crc crc-lt (kept ++ cur_log ∷ []) [] 0 0 (
                All-append (λ l. All IsWritable l.1) kept (cur_log ∷ []) q.writable
                  (q.cur_writable, tt))
            ∙ λ i. ok (
              all_batches-append kept mgr.log_number cur i,
              greatest_of 0 (kept ++ cur_log ∷ []),
              highest-append 0 mgr.log_number kept cur (omega arith) q.older i,
            ),
      )
