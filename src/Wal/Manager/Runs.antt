-- ===== src/Wal/Manager/Runs.antt =====
-- The manager of the log files (wal/manager.rs) in use: what its directory holds after any calls.
use merutable.Bytes.{Bytes}
use merutable.Wal.Batch
use merutable.Wal.Batch.{WriteBatch, last_seq}
use merutable.Wal.Log.{add_record, add_records}
use merutable.Wal.Manager.{
  ClosedLog, WalManager, create_file, append_file, open_dir, raised, append, rotate,
  mark_flushed_seq, register_closed_log,
}
use mathlib.Core.List.{map-append}
use merutable.Wal.Manager.Content.{log_of, add_record-log_of, log_of-append}
use merutable.Wal.Manager.Listing.{Ascending}
use merutable.Wal.Manager.Recovered.{Log, IsWritable, file_of}
use merutable.Wal.Manager.Logs.{
  IsFlushed, Survives, Survives-refl, Survives-append, files, Ascending-append, files-append,
  create_file-files, append_file-files,
}
use merutable.Prelude.{
  refl, List, ℕ, ◌<◌, ◌≡◌, All, ◌+◌, ◌++◌, ◌∷◌, map, ◌^◌, [], All-append, Bool, arith, ap, All-map,
  ◌∙◌, sym, ◌≤◌,
}
use merutable.Types.Sequence.{SeqNum}

-- A closed log is older than the current one, and the number it was closed with bounds its batches.
abbrev pub Covers : List Log → ℕ → ClosedLog → Type 0
Covers ks current c =
    (c.log_number < current) × All (λ l. l.0 ≡ c.log_number → IsFlushed c.max_seq l) ks

module _ (crc : Bytes → ℕ) where
  -- What the directory holds: `past` are the logs before the current one, `kept` those of them that
  -- are still there, and `cur` the batches of the current one.
  pub record Holds (mgr : WalManager) (past : List Log) (cur : List WriteBatch) (kept : List Log)
      : Type 0 where
    pub listed : mgr.dir ≡ files crc kept mgr.log_number (log_of crc (map Batch.encode cur)).0
    pub survives : Survives mgr.flushed_seq past kept
    pub older : All (λ l. l.0 < mgr.log_number) kept
    pub rising : Ascending kept
    pub writable : All (λ l. All IsWritable l.1) kept
    pub cur_writable : All IsWritable cur
    pub writer :
        mgr.current ≡ record (log_of crc (map Batch.encode cur)).1 { log_number = mgr.log_number }
    pub cur_max : IsFlushed mgr.current_log_max_seq (mgr.log_number, cur)
    pub covered : All (Covers kept mgr.log_number) mgr.closed_logs
    pub next : mgr.next_log ≡ mgr.log_number + 1

  -- Calls from `open` on. `open` finds the files of older logs, which `register_closed_log` then
  -- announces with a number that bounds their batches; a removal may fail.
  pub data Run : WalManager → List Log → List WriteBatch → Type 0 where
    opened :
        (past : List Log) (n : ℕ)
        → Ascending past
        → All (λ l. l.0 < n) past
        → All (λ l. All IsWritable l.1) past
        → n + 1 < 2 ^ 64
        → Run (open_dir (map (file_of crc) past) n) past []
    appended :
        (mgr : WalManager) (past : List Log) (cur : List WriteBatch) (b : WriteBatch)
        → Run mgr past cur
        → IsWritable b
        → Run (append crc mgr b) past (cur ++ b ∷ [])
    rotated :
        (mgr : WalManager) (past : List Log) (cur : List WriteBatch)
        → Run mgr past cur
        → mgr.next_log + 1 < 2 ^ 64
        → Run (rotate mgr).1 (past ++ (mgr.log_number, cur) ∷ []) []
    flushed :
        (mgr : WalManager) (past : List Log) (cur : List WriteBatch) (fails : ℕ → Bool)
        (seq : SeqNum)
        → Run mgr past cur
        → Run (mark_flushed_seq fails mgr seq) past cur
    registered :
        (mgr : WalManager) (past : List Log) (cur : List WriteBatch) (n : ℕ) (seq : SeqNum)
        → Run mgr past cur
        → n < mgr.log_number
        → All (λ l. l.0 ≡ n → IsFlushed seq l) past
        → Run (register_closed_log mgr n seq) past cur

  pub opened-Holds :
      (past : List Log) (n : ℕ)
      → Ascending past
      → All (λ l. l.0 < n) past
      → All (λ l. All IsWritable l.1) past
      → n + 1 < 2 ^ 64
      → Holds (open_dir (map (file_of crc) past) n) past [] past
  unfolding open_dir add_records
  opened-Holds past n a o w h = record {
    listed = create_file-files crc past n o;
    survives = Survives-refl 0 past;
    older = o;
    rising = a;
    writable = w;
    cur_writable = tt;
    writer = refl;
    cur_max = tt;
    covered = tt;
    next = omega arith;
  }

  pub appended-Holds :
      (mgr : WalManager) (past kept : List Log) (cur : List WriteBatch) (b : WriteBatch)
      → Holds mgr past cur kept
      → IsWritable b
      → Holds (append crc mgr b) past (cur ++ b ∷ []) kept
  unfolding append
  appended-Holds mgr past kept cur b q w =
      let payloads = map Batch.encode cur in
      let payload = Batch.encode b in
      let step =
        ap (λ w. add_record crc w payload) q.writer
        ∙ add_record-log_of crc payloads mgr.log_number payload in
      let grown =
        ap (log_of crc) (map-append Batch.encode cur (b ∷ []))
        ∙ log_of-append crc payloads payload in
      record {
        listed =
            ap (λ d. append_file d mgr.log_number (add_record crc mgr.current payload).0) q.listed
            ∙ append_file-files crc kept mgr.log_number (log_of crc payloads).0
                (add_record crc mgr.current payload).0 q.older
            ∙ ap (λ o. files crc kept mgr.log_number ((log_of crc payloads).0 ++ o.0)) step
            ∙ ap (λ o. files crc kept mgr.log_number o.0) (sym grown);
        survives = q.survives;
        older = q.older;
        rising = q.rising;
        writable = q.writable;
        cur_writable = All-append IsWritable cur (b ∷ []) q.cur_writable (w, tt);
        writer =
            ap (λ o. o.1) step ∙ ap (λ o. record o.1 { log_number = mgr.log_number }) (sym grown);
        cur_max =
            All-append (λ a. last_seq a ≤ raised mgr.current_log_max_seq (last_seq b)) cur (b ∷ [])
              (All-map _ _ (λ a p. ground (arith, p)) cur q.cur_max) (ground arith, tt);
        covered = q.covered;
        next = q.next;
      }

  pub rotated-Holds :
      (mgr : WalManager) (past kept : List Log) (cur : List WriteBatch)
      → Holds mgr past cur kept
      → mgr.next_log + 1 < 2 ^ 64
      → Holds
          (rotate mgr).1
          (past ++ (mgr.log_number, cur) ∷ [])
          []
          (kept ++ (mgr.log_number, cur) ∷ [])
  unfolding rotate add_records
  rotated-Holds mgr past kept cur q h =
      let cur_log : Log = (mgr.log_number, cur) in
      let newer : All (λ l. l.0 < mgr.next_log) (kept ++ cur_log ∷ []) =
        All-append (λ l. l.0 < mgr.next_log) kept (cur_log ∷ [])
          (All-map _ _ (λ l p. omega (arith, p, q.next)) kept q.older)
          (omega (arith, q.next), tt) in
      record {
        listed =
            ap (λ d. create_file d mgr.next_log) (q.listed ∙ sym (files-append crc kept cur_log))
            ∙ create_file-files crc (kept ++ cur_log ∷ []) mgr.next_log newer;
        survives = Survives-append mgr.flushed_seq past kept (mgr.log_number, cur) q.survives;
        older = newer;
        rising = Ascending-append kept cur_log q.rising q.older;
        writable = All-append (λ l. All IsWritable l.1) kept _ q.writable (q.cur_writable, tt);
        cur_writable = tt;
        writer = refl;
        cur_max = tt;
        covered =
            All-append (Covers (kept ++ cur_log ∷ []) mgr.next_log) mgr.closed_logs _
              (All-map _ _
                (λ c p. (
                  omega (arith, p.0, q.next),
                  All-append (λ l. l.0 ≡ c.log_number → IsFlushed c.max_seq l) kept (cur_log ∷ [])
                      p.1 ((λ e. absurd (omega (arith, e, p.0))), tt),
                ))
                mgr.closed_logs q.covered)
              (
                (
                  omega (arith, q.next),
                  All-append (λ l. l.0 ≡ mgr.log_number → IsFlushed mgr.current_log_max_seq l) kept
                      (cur_log ∷ [])
                      (All-map _ _ (λ l p e. absurd (omega (arith, e, p))) kept q.older)
                      ((λ e. q.cur_max), tt),
                ),
                tt,
              );
        next = omega (arith, h);
      }
