-- ===== src/Engine/WritePath/Writes.antt =====
-- Writes and rotations in any order (engine/write_path.rs): the memtables and the log hold the same
-- batches.
pub mod Batches
use merutable.Engine.WritePath.Writes.Batches.{
  history, Chain, history-append, Chain-append, history_of-below, FitsLog, fill_batch-records,
  flushed_seq-append, flushed_seq-rotate, last_seq-positive, batches, batches-append,
}
use merutable.Bytes.{Bytes}
use merutable.Engine.Cache.{LruCache, RowCache}
use merutable.Engine.WritePath.{Engine, EncodedOp, fill_batch, write_locked}
use merutable.Memtable.Manager
use merutable.Memtable.Manager.{MemtableManager}
use merutable.Memtable.Manager.Refinement.{past, past-append, history_of-append}
use merutable.Memtable.Manager.Runs.{
  Run as MemRun, started as mem_started, applied as mem_applied, rotated as mem_rotated,
}
use merutable.Memtable.SkipMap.{SkipMap}
use merutable.Memtable.Skiplist.{EntryValue}
use merutable.Memtable.Skiplist.Lookup.{Version}
use merutable.Memtable.Table.History.{history_of, Follows}
use merutable.Types.Sequence.{SeqNum, OpType, allocate_n, seqnum_max, next}
use merutable.Wal.Batch
use merutable.Wal.Batch.{BatchRecord, WriteBatch, last_seq}
use merutable.Wal.Batch.RoundTrip.{Fits}
use merutable.Wal.Manager.{WalManager, open_dir, append as wal_append, rotate as wal_rotate}
use merutable.Wal.Manager.Recovered.{Log, IsWritable}
use merutable.Wal.Manager.Runs.{
  Run as WalRun, opened as wal_opened, appended as wal_appended, rotated as log_rotated,
}
use merutable.Prelude.{
  List, length, ◌<◌, ◌++◌, All, ◌∷◌, [], ◌≡◌, ◌^◌, ◌+◌, arith, refl, All-map, some, subst,
  All-append, length-append, ap, ℕ, Bool, sym, append-nil, ◌∙◌, ◌≤◌, ok, Option, ◌%◌, append_assoc,
  >>=-eq-ok, ok_inj,
}

module _ (crc : Bytes → ℕ) (S : SkipMap EntryValue) (L : LruCache) where
  -- What an engine with an empty directory becomes by writes under the lock and by the two halves of a
  -- rotation, in any order, with the batches that were written. The cache may change at any time.
  pub data Run : Engine S.Map L.Map → List WriteBatch → Type 0 where
    opened :
        (e : Engine S.Map L.Map) (first_seq : SeqNum) (threshold most n : ℕ)
        → e.memtable ≡ Manager.new S first_seq threshold most
        → e.wal ≡ open_dir [] n
        → n + 1 < 2 ^ 64
        → 0 < e.global_seq
        → Run e []
    written :
        (e e' : Engine S.Map L.Map) (log : List WriteBatch) (ops : List EncodedOp) (base : SeqNum)
        (full : Bool)
        → Run e log
        → e.global_seq + length ops ≤ seqnum_max
        → 0 < length ops
        → length ops < 2 ^ 32
        → All FitsLog ops
        → write_locked crc S L e ops ≡ ok (base, full, e')
        → Run e' (log ++ fill_batch (Batch.new e.global_seq) ops ∷ [])
    forgot :
        (e : Engine S.Map L.Map) (log : List WriteBatch) (cache : Option (RowCache L.Map))
        → Run e log
        → Run (record e { row_cache = cache }) log
    memtable_rotated :
        (e : Engine S.Map L.Map) (log : List WriteBatch) (n : SeqNum)
        → Run e log
        → Run (record e { memtable = (Manager.rotate S e.memtable n).1 }) log
    wal_rotated :
        (e : Engine S.Map L.Map) (log : List WriteBatch)
        → Run e log
        → e.wal.next_log + 1 < 2 ^ 64
        → Run (record e { wal = (wal_rotate e.wal).1 }) log

  -- The memtables hold the history of the batches, and the logs the batches.
  pub record Agrees (e : Engine S.Map L.Map) (log : List WriteBatch) : Type 0 where
    pub now : List Version
    pub sealed : List (List Version)
    pub mem : MemRun S e.memtable now sealed
    pub held : now ++ past sealed ≡ history [] log
    pub older : List Log
    pub current : List WriteBatch
    pub wal : WalRun crc e.wal older current
    pub logged : batches older ++ current ≡ log
    pub below : All (λ v. v.seq < e.global_seq) (history [] log)
    pub chain : Chain [] log
    pub unflushed : e.wal.flushed_seq ≡ 0
    pub positive : All (λ b. 0 < last_seq b) log
    pub started : 0 < e.global_seq

  opened-Agrees :
      (e : Engine S.Map L.Map) (first_seq : SeqNum) (threshold most n : ℕ)
      → e.memtable ≡ Manager.new S first_seq threshold most
      → e.wal ≡ open_dir [] n
      → n + 1 < 2 ^ 64
      → 0 < e.global_seq
      → Agrees e []
  opened-Agrees e first_seq threshold most n em ew few g = record {
    now = [];
    sealed = [];
    mem = subst (λ m. MemRun S m [] []) (sym em) (mem_started first_seq threshold most);
    held = refl;
    older = [];
    current = [];
    wal = subst (λ w. WalRun crc w [] []) (sym ew) (wal_opened [] n tt tt tt few);
    logged = refl;
    below = tt;
    chain = tt;
    unflushed = ap (λ (w : WalManager). w.flushed_seq) ew ∙ (unfold open_dir in refl);
    positive = tt;
    started = g;
  }

  -- What a write under the lock changes
  pub written-parts :
      (e e' : Engine S.Map L.Map) (ops : List EncodedOp) (base : SeqNum) (full : Bool)
      → write_locked crc S L e ops ≡ ok (base, full, e')
      → (Manager.apply_batch S e.memtable (fill_batch (Batch.new e.global_seq) ops)
          ≡ ok (full, e'.memtable))
        × (e'.wal ≡ wal_append crc e.wal (fill_batch (Batch.new e.global_seq) ops))
        × (e'.global_seq ≡ (e.global_seq + length ops) % 2 ^ 64)
  unfolding write_locked allocate_n
  written-parts e e' ops base full h =
      let ((f, m), q, k) =
        >>=-eq-ok (Manager.apply_batch S e.memtable (fill_batch (Batch.new e.global_seq) ops)) _
          h in
      let p = ok_inj k in
      (
        q ∙ ap (λ (t : SeqNum × Bool × Engine S.Map L.Map). ok (t.1, t.2.memtable)) p,
        sym (ap (λ (t : SeqNum × Bool × Engine S.Map L.Map). t.2.wal) p),
        sym (ap (λ (t : SeqNum × Bool × Engine S.Map L.Map). t.2.global_seq) p),
      )

  written-Agrees :
      (e e' : Engine S.Map L.Map) (log : List WriteBatch) (ops : List EncodedOp) (base : SeqNum)
      (full : Bool)
      → Agrees e log
      → e.global_seq + length ops ≤ seqnum_max
      → 0 < length ops
      → length ops < 2 ^ 32
      → All FitsLog ops
      → write_locked crc S L e ops ≡ ok (base, full, e')
      → Agrees e' (log ++ fill_batch (Batch.new e.global_seq) ops ∷ [])
  written-Agrees e e' log ops base full q room some_ops few fit done =
      let b = fill_batch (Batch.new e.global_seq) ops in
      let (seq, len, fits) = fill_batch-records ops (Batch.new e.global_seq) fit tt in
      let (m, w, g) = written-parts e e' ops base full done in
      let grown = history-append [] log b in
      let follows : Follows b.sequence b.records (history [] log) = (
        All-map _ _ (λ v p. omega (arith, p, seq)) (history [] log) q.below,
        omega (arith, seq, len, room),
      ) in
      let counter : e'.global_seq ≡ e.global_seq + length ops = omega (arith, g, room) in
      record {
        now = history_of b.sequence b.records q.now;
        sealed = q.sealed;
        mem =
            mem_applied e.memtable e'.memtable q.now q.sealed b full q.mem
              (subst (Follows b.sequence b.records) (sym q.held) follows) m;
        held =
            history_of-append b.records b.sequence q.now (past q.sealed)
            ∙ ap (history_of b.sequence b.records) q.held
            ∙ sym grown;
        older = q.older;
        current = q.current ++ b ∷ [];
        wal =
            subst (λ v. WalRun crc v q.older (q.current ++ b ∷ [])) (sym w)
              (wal_appended e.wal q.older q.current b q.wal
                (omega (arith, seq, room), omega (arith, len, few), fits));
        logged =
            ap (λ r. r) (sym (append_assoc (batches q.older) q.current (b ∷ [])))
            ∙ ap (λ r. r ++ b ∷ []) q.logged;
        below = subst (All (λ v. v.seq < e'.global_seq)) (sym grown) (
            All-map _ _ (λ v p. omega (arith, p, seq, len, counter)) _
              (history_of-below b.records b.sequence (history [] log) follows.0));
        chain = Chain-append [] log b q.chain follows;
        unflushed =
            ap (λ (v : WalManager). v.flushed_seq) w ∙ flushed_seq-append crc e.wal b ∙ q.unflushed;
        positive =
            All-append (λ c. 0 < last_seq c) log (b ∷ []) q.positive
              (
                last_seq-positive b (omega (arith, seq, q.started, len, some_ops))
                    (omega (arith, seq, len, room)),
                tt,
              );
        started = omega (arith, counter, q.started);
      }

  pub Run-Agrees : (e : Engine S.Map L.Map) (log : List WriteBatch) → Run e log → Agrees e log
  Run-Agrees a l (opened e first_seq threshold most n em ew few g) =
      opened-Agrees e first_seq threshold most n em ew few g
  Run-Agrees a l (written e e' log ops base full r room some_ops few fit done) =
      written-Agrees e e' log ops base full (Run-Agrees e log r) room some_ops few fit done
  Run-Agrees a l (forgot e log cache r) =
      let q = Run-Agrees e log r in
      record {
        now = q.now;
        sealed = q.sealed;
        mem = q.mem;
        held = q.held;
        older = q.older;
        current = q.current;
        wal = q.wal;
        logged = q.logged;
        below = q.below;
        chain = q.chain;
        unflushed = q.unflushed;
        positive = q.positive;
        started = q.started;
      }
  Run-Agrees a l (memtable_rotated e log n r) =
      let q = Run-Agrees e log r in
      record {
        now = [];
        sealed = q.sealed ++ q.now ∷ [];
        mem = mem_rotated e.memtable q.now q.sealed n q.mem;
        held = past-append q.sealed q.now ∙ q.held;
        older = q.older;
        current = q.current;
        wal = q.wal;
        logged = q.logged;
        below = q.below;
        chain = q.chain;
        unflushed = q.unflushed;
        positive = q.positive;
        started = q.started;
      }
  Run-Agrees a l (wal_rotated e log r few) =
      let q = Run-Agrees e log r in
      record {
        now = q.now;
        sealed = q.sealed;
        mem = q.mem;
        held = q.held;
        older = q.older ++ (e.wal.log_number, q.current) ∷ [];
        current = [];
        wal = log_rotated e.wal q.older q.current q.wal few;
        logged = append-nil _ ∙ batches-append q.older (e.wal.log_number, q.current) ∙ q.logged;
        below = q.below;
        chain = q.chain;
        unflushed = flushed_seq-rotate e.wal ∙ q.unflushed;
        positive = q.positive;
        started = q.started;
      }
