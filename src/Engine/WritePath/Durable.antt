-- ===== src/Engine/WritePath/Durable.antt =====
-- What `open` of engine/engine.rs brings back of the writes of engine/write_path.rs.
use mathlib.Core.List.{map-append}
use merutable.Engine.Cache.{LruCache}
use merutable.Engine.WritePath.{Engine, replay, recover_memtable}
use merutable.Engine.WritePath.Writes.{Run, Run-Agrees}
use merutable.Engine.WritePath.Writes.Batches.{Chain, history, batches, batches-append}
use merutable.Memtable.Manager
use merutable.Memtable.Manager.{MemtableManager}
use merutable.Memtable.Manager.Refinement.{All-parts}
use merutable.Memtable.Manager.Runs.{Run-Holds, get-Run}
use merutable.Memtable.Manager.Runs.{Run as MemRun, started as mem_started, applied as mem_applied}
use merutable.Memtable.SkipMap.{SkipMap}
use merutable.Memtable.Skiplist.{EntryValue}
use merutable.Memtable.Skiplist.Lookup.{Version, Apart, lookup}
use merutable.Memtable.Table.History.{history_of, apply_batch-Represents, Follows}
use merutable.Engine.WritePath.Numbers.{greatest_of-bounds, last_seq-Chain, history-bounded}
use merutable.Types.Sequence.{seqnum_max}
use merutable.Wal.Batch.{BatchRecord, WriteBatch, last_seq}
use merutable.Wal.Batch.RoundTrip.{normalized}
use merutable.Wal.Manager.Listing.{Rearranged}
use merutable.Wal.Manager.Logs.{Survives, none_left, stays, gone}
use merutable.Wal.Manager.Recovered.{Log, read_back, all_batches, length-map, greatest_of}
use merutable.Wal.Manager.Recovery.{recover_from_dir-Run}
use merutable.Prelude.{
  List, ℕ, All, map, [], ◌≤◌, ◌<◌, ◌∷◌, ◌≡◌, ◌^◌, ◌+◌, ap, arith, ok, Bool, subst, refl, ◌∙◌, ◌++◌,
  sym, append-nil, max, ◌%◌, All-map,
}
use merutable.Bytes.{Bytes}
use merutable.Types.Sequence.{SeqNum}

-- A batch that is read back adds the same versions.
history_of-normalized :
    (rs : List BatchRecord) (seq : SeqNum) (h : List Version)
    → history_of seq (map normalized rs) h ≡ history_of seq rs h
unfolding history_of
history_of-normalized [] seq h = refl
history_of-normalized (r ∷ rs) seq h = history_of-normalized rs (seq + 1) _

history-read_back :
    (h : List Version) (bs : List WriteBatch) → history h (map read_back bs) ≡ history h bs
history-read_back h [] = refl
history-read_back h (b ∷ bs) =
    ap (λ g. history g (map read_back bs)) (history_of-normalized b.records b.sequence h)
    ∙ history-read_back (history_of b.sequence b.records h) bs

Chain-read_back :
    (h : List Version) (bs : List WriteBatch) → Chain h bs → Chain h (map read_back bs)
Chain-read_back h [] c = tt
Chain-read_back h (b ∷ bs) (f, c) = (
  (f.0, omega (arith, f.1, length-map normalized b.records)),
  subst (λ g. Chain g (map read_back bs)) (sym (history_of-normalized b.records b.sequence h))
      (Chain-read_back (history_of b.sequence b.records h) bs c),
)

-- While nothing counts as flushed, a log that is gone was empty.
unflushed-nil :
    (bs : List WriteBatch) → All (λ b. last_seq b ≤ 0) bs → All (λ b. 0 < last_seq b) bs → bs ≡ []
unflushed-nil [] f p = refl
unflushed-nil (b ∷ bs) f p = absurd (omega (arith, f.0, p.0))

batches-Survives :
    (ls ks : List Log)
    → Survives 0 ls ks
    → All (λ b. 0 < last_seq b) (batches ls)
    → batches ks ≡ batches ls
batches-Survives a b none_left p = refl
batches-Survives a b (stays l ls ks s) p =
    ap (λ r. l.1 ++ r) (batches-Survives ls ks s (All-parts _ l.1 (batches ls) p).1)
batches-Survives a b (gone l ls ks f s) p =
    let (here, later) = All-parts _ l.1 (batches ls) p in
    batches-Survives ls ks s later ∙ ap (λ r. r ++ batches ls) (sym (unflushed-nil l.1 f here))

all_batches-batches : (ls : List Log) → all_batches ls ≡ map read_back (batches ls)
all_batches-batches [] = refl
all_batches-batches (l ∷ ls) =
    ap (λ r. map read_back l.1 ++ r) (all_batches-batches ls)
    ∙ sym (map-append read_back l.1 (batches ls))

module _ (S : SkipMap EntryValue) where
  apply_batch-open :
      (mgr : MemtableManager S.Map) (h : List Version) (b : WriteBatch)
      → MemRun S mgr h []
      → Follows b.sequence b.records h
      → (flush : Bool) × (mgr' : MemtableManager S.Map) × (Manager.apply_batch S mgr b
          ≡ ok (flush, mgr'))
  unfolding Manager.apply_batch
  apply_batch-open mgr h b r f =
      let q = Run-Holds S mgr h [] r in
      let (flush, mt, p, holds, open_) = apply_batch-Represents S mgr.active b h q.open_ f q.now in
      (flush, record mgr { active = mt }, rw p refl)

  replay-Run :
      (bs : List WriteBatch) (mgr : MemtableManager S.Map) (h : List Version)
      → MemRun S mgr h []
      → Chain h bs
      → (mgr' : MemtableManager S.Map) × (replay S mgr bs ≡ ok mgr')
        × MemRun S mgr' (history h bs) []
  unfolding replay
  replay-Run [] mgr h r c = (mgr, refl, r)
  replay-Run (b ∷ bs) mgr h r (f, c) =
      let (flush, next_mgr, p) = apply_batch-open mgr h b r f in
      let applied =
        mem_applied mgr next_mgr h [] b flush r
          (subst (Follows b.sequence b.records) (sym (append-nil h)) f) p in
      let (last_mgr, q, last_run) = replay-Run bs next_mgr _ applied c in
      (last_mgr, rw p q, last_run)

module _ (crc : Bytes → ℕ) (crc-lt : (b : Bytes) → crc b < 2 ^ 32) (S : SkipMap EntryValue)
    (L : LruCache) where
  -- An engine starts with an empty memtable and an empty directory, and batches of at least one
  -- operation are written under the lock of the log; between them the two halves of a rotation come
  -- in any order, any number of times, and the cache changes at will. When the process ends after
  -- that, before any flush, `open` succeeds on the files of the log, in whatever order they are listed:
  -- the sequence number it starts from is above those of all versions that were written, and in the
  -- memtables it builds a lookup returns, at each sequence number, what it returned in those of the
  -- lost engine. The counter starts above 0 and does not pass `SEQNUM_MAX`, nor does the number that
  -- the catalog passes; log numbers do not reach 2^64, keys and values are shorter than 2^64, and a
  -- batch has fewer than 2^32 operations. Of the key that is looked up and a written one, neither is a
  -- proper front of the other. The checksum is any function into u32.
  pub recover_memtable-Run :
      (e : Engine S.Map L.Map) (log : List WriteBatch) (listing : List (ℕ × Bytes))
      (iceberg_max_seq : SeqNum) (threshold most : ℕ) (u : Bytes) (read_seq : SeqNum)
      → Run crc S L e log
      → Rearranged e.wal.dir listing
      → iceberg_max_seq ≤ seqnum_max
      → All (λ v. Apart u v.user_key) (history [] log)
      → (init_seq : ℕ) × (mgr : MemtableManager S.Map) × (recover_memtable crc S listing
            iceberg_max_seq threshold most
          ≡ ok (init_seq, mgr))
        × All (λ v. v.seq < init_seq) (history [] log)
        × (Manager.get S mgr u read_seq ≡ Manager.get S e.memtable u read_seq)
  unfolding recover_memtable
  recover_memtable-Run e log listing iceberg_max_seq threshold most u read_seq r l few a =
      let q = Run-Agrees crc S L e log r in
      let (kept, survives, found) =
        recover_from_dir-Run crc crc-lt e.wal q.older q.current listing q.wal l in
      let (here, later) =
        All-parts _ (batches q.older) q.current
          (subst (All (λ b. 0 < last_seq b)) (sym q.logged) q.positive) in
      let logs : List Log = kept ++ (e.wal.log_number, q.current) ∷ [] in
      let same_batches : batches logs ≡ log =
        batches-append kept (e.wal.log_number, q.current)
        ∙ ap (λ k. k ++ q.current)
            (batches-Survives q.older kept
              (subst (λ n. Survives n q.older kept) q.unflushed survives) here)
        ∙ q.logged in
      let whole : all_batches kept ++ map read_back q.current ≡ map read_back log =
        ap (λ k. k ++ map read_back q.current) (all_batches-batches kept)
        ∙ sym (map-append read_back (batches kept) q.current)
        ∙ ap (map read_back)
            (sym (batches-append kept (e.wal.log_number, q.current)) ∙ same_batches) in
      let (lo, hi, each) = greatest_of-bounds seqnum_max 0 logs (omega arith) (
        subst (All (λ b. last_seq b ≤ seqnum_max)) (sym same_batches)
          (last_seq-Chain [] log q.chain)) in
      let init_seq = (max (greatest_of 0 logs) iceberg_max_seq + 1) % 2 ^ 64 in
      let (mgr, done, run) =
        replay-Run S (map read_back log) (Manager.new S init_seq threshold most) []
          (mem_started init_seq threshold most) (Chain-read_back [] log q.chain) in
      let back = append-nil (history [] (map read_back log)) ∙ history-read_back [] log in
      (
        init_seq,
        mgr,
        rw (found, whole, done) refl,
        All-map _ _ (λ v p. omega (arith, p, hi, few)) (history [] log)
            (history-bounded log [] (greatest_of 0 logs) q.chain tt
              (subst (All (λ b. last_seq b ≤ greatest_of 0 logs)) same_batches each)),
        get-Run S mgr (history [] (map read_back log)) [] u read_seq run
              (subst (All (λ v. Apart u v.user_key)) (sym back) a)
            ∙ ap (lookup u read_seq) (back ∙ sym q.held)
            ∙ sym (
                get-Run S e.memtable q.now q.sealed u read_seq q.mem
                  (subst (All (λ v. Apart u v.user_key)) (sym q.held) a)),
      )
