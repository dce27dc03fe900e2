-- ===== src/Memtable/Manager/Runs.antt =====
-- Any order of writes, rotations and finished flushes.
use merutable.Memtable.Manager
use merutable.Memtable.Manager.{MemtableManager, retain_others}
use merutable.Memtable.Table
use merutable.Memtable.Table.{Memtable}
use merutable.Types.Sequence.{SeqNum}
use merutable.Memtable.SkipMap.{SkipMap}
use merutable.Prelude.{
  List, ◌≡◌, All, ℕ, [], ◌∷◌, ◌≢◌, ◌==◌, Bool, ◌++◌, refl, false, arith, subst, ap, ok, sym, true,
  ◌∙◌, Result, ◌>>=◌, append_assoc,
}
use merutable.Memtable.Skiplist.{EntryValue}
use merutable.Memtable.Skiplist.Lookup.{Version, Descending, Apart, lookup}
use merutable.Memtable.Manager.Refinement.{
  Holds, QueueHolds-append, past, past-append, QueueHolds, All-parts, Descending-parts, get-Holds,
  history_of-append,
}
use merutable.Wal.Batch.{WriteBatch}
use merutable.Memtable.Table.History.{
  new-Represents, Follows, history_of, apply_batch-Represents, history_of-Descending,
}
use merutable.Bytes.{Bytes}

-- No memtable of a queue starts at `first_seq`.
abbrev pub NoneStarts : {Map : Type 0} → SeqNum → List (Memtable Map) → Type 0
NoneStarts first_seq ms = All (λ m. m.first_seq ≢ first_seq) ms

pub retain_others-none :
    {Map : Type 0} (n : SeqNum) (ms : List (Memtable Map))
    → NoneStarts n ms
    → retain_others n ms ≡ ms
unfolding retain_others
retain_others-none n [] h = refl
retain_others-none n (m ∷ ms) h =
    rw (differs, retain_others) (ap (λ l. m ∷ l) (retain_others-none n ms h.1))
  where
    differs : m.first_seq == n ≡ false
    differs = ground (arith, h.0)

-- `retain` drops the memtable at the front, where no other starts at its sequence number.
pub retain_others-head :
    {Map : Type 0} (n : SeqNum) (m : Memtable Map) (ms : List (Memtable Map))
    → m.first_seq ≡ n
    → NoneStarts n ms
    → retain_others n (m ∷ ms) ≡ ms
unfolding retain_others
retain_others-head n m ms e h = rw (same, retain_others) (retain_others-none n ms h)
  where
    same : m.first_seq == n ≡ true
    same = ground (arith, e)

module _ (S : SkipMap EntryValue) where
  -- The states that the manager reaches, each with the history of its active memtable and those of
  -- the sealed ones: the oldest of these is dropped when it is flushed, and no other starts where it
  -- does.
  pub data Run : MemtableManager S.Map → List Version → List (List Version) → Type 0 where
    started :
        (first_seq : SeqNum) (threshold most : ℕ)
        → Run (Manager.new S first_seq threshold most) [] []
    applied :
        (mgr mgr' : MemtableManager S.Map) (h : List Version) (hs : List (List Version))
        (b : WriteBatch) (flush : Bool)
        → Run mgr h hs
        → Follows b.sequence b.records (h ++ past hs)
        → Manager.apply_batch S mgr b ≡ ok (flush, mgr')
        → Run mgr' (history_of b.sequence b.records h) hs
    rotated :
        (mgr : MemtableManager S.Map) (h : List Version) (hs : List (List Version))
        (new_first_seq : SeqNum)
        → Run mgr h hs
        → Run (Manager.rotate S mgr new_first_seq).1 [] (hs ++ h ∷ [])
    dropped :
        (mgr : MemtableManager S.Map) (h old : List Version) (hs : List (List Version))
        (m : Memtable S.Map) (ms : List (Memtable S.Map))
        → Run mgr h (old ∷ hs)
        → mgr.immutable ≡ m ∷ ms
        → NoneStarts m.first_seq ms
        → Run (Manager.drop_flushed S mgr m.first_seq) h hs

  new-Holds :
      (first_seq : SeqNum) (threshold most : ℕ)
      → Holds S (Manager.new S first_seq threshold most) [] []
  unfolding Manager.new Table.new
  new-Holds first_seq threshold most = record {
    open_ = refl;
    now = new-Represents S first_seq threshold;
    queue = tt;
    falls = tt;
  }

  applied-Holds :
      (mgr mgr' : MemtableManager S.Map) (h : List Version) (hs : List (List Version))
      (b : WriteBatch) (flush : Bool)
      → Holds S mgr h hs
      → Follows b.sequence b.records (h ++ past hs)
      → Manager.apply_batch S mgr b ≡ ok (flush, mgr')
      → Holds S mgr' (history_of b.sequence b.records h) hs
  unfolding Manager.apply_batch
  applied-Holds mgr mgr' h hs b flush q f e =
      let (fl, mt', p, rep, stays) =
        apply_batch-Represents S mgr.active b h q.open_ ((All-parts _ h (past hs) f.0).0, f.1)
          q.now in
      let reached : MemtableManager S.Map = record mgr { active = mt' } in
      let done : Manager.apply_batch S mgr b ≡ ok (fl, reached) =
        ap
          (λ (x : Result (Bool × Memtable S.Map)). x >>= λ y. ok (y.0, record mgr { active = y.1 }))
          p in
      let same : reached ≡ mgr' = cc in
      subst (λ x. Holds S x (history_of b.sequence b.records h) hs) same
        (record {
          open_ = stays;
          now = rep;
          queue = q.queue;
          falls =
              subst Descending (sym (history_of-append b.records b.sequence h (past hs)))
                (history_of-Descending b.records b.sequence (h ++ past hs) f q.falls);
        })

  rotated-Holds :
      (mgr : MemtableManager S.Map) (h : List Version) (hs : List (List Version))
      (new_first_seq : SeqNum)
      → Holds S mgr h hs
      → Holds S (Manager.rotate S mgr new_first_seq).1 [] (hs ++ h ∷ [])
  unfolding Manager.rotate
  rotated-Holds mgr h hs new_first_seq q = record {
    open_ = unfold Table.new in refl;
    now = new-Represents S new_first_seq mgr.flush_threshold;
    queue = QueueHolds-append S mgr.immutable hs (Table.seal S mgr.active) h q.queue q.now;
    falls = subst Descending (sym (past-append hs h)) q.falls;
  }

  dropped-Holds :
      (mgr : MemtableManager S.Map) (h old : List Version) (hs : List (List Version))
      (m : Memtable S.Map) (ms : List (Memtable S.Map))
      → Holds S mgr h (old ∷ hs)
      → mgr.immutable ≡ m ∷ ms
      → NoneStarts m.first_seq ms
      → Holds S (Manager.drop_flushed S mgr m.first_seq) h hs
  unfolding Manager.drop_flushed
  dropped-Holds mgr h old hs m ms q e n = record {
    open_ = q.open_;
    now = q.now;
    queue =
        subst (λ l. QueueHolds S l hs)
          (sym (ap (retain_others m.first_seq) e ∙ retain_others-head m.first_seq m ms refl n))
          (subst (λ l. QueueHolds S l (old ∷ hs)) e q.queue).1;
    falls =
        (Descending-parts (h ++ past hs) old
          (subst Descending (sym (append_assoc h (past hs) old)) q.falls)).0;
  }

  pub Run-Holds :
      (mgr : MemtableManager S.Map) (h : List Version) (hs : List (List Version))
      → Run mgr h hs
      → Holds S mgr h hs
  Run-Holds mgr h hs (started first_seq threshold most) = new-Holds first_seq threshold most
  Run-Holds mgr h hs (applied mgr0 mgr0' h0 hs0 b flush r f e) =
      applied-Holds mgr0 mgr h0 hs b flush (Run-Holds mgr0 h0 hs r) f e
  Run-Holds mgr h hs (rotated mgr0 h0 hs0 n r) =
      rotated-Holds mgr0 h0 hs0 n (Run-Holds mgr0 h0 hs0 r)
  Run-Holds mgr h hs (dropped mgr0 h0 old hs0 m ms r e n) =
      dropped-Holds mgr0 h old hs m ms (Run-Holds mgr0 h (old ∷ hs) r) e n

  -- After any order of batches, each with sequence numbers above all before it, of rotations and of
  -- flushed memtables dropped, a lookup over the active and the sealed memtables returns the newest
  -- version of the user key that is not newer than `read_seq`, of all versions that were applied and
  -- not dropped, and nothing if there is none. Of the user key and a stored one, neither is a proper
  -- front of the other; a memtable that is dropped starts at another sequence number than those
  -- behind it.
  pub get-Run :
      (mgr : MemtableManager S.Map) (h : List Version) (hs : List (List Version)) (u : Bytes)
      (read_seq : SeqNum)
      → Run mgr h hs
      → All (λ v. Apart u v.user_key) (h ++ past hs)
      → Manager.get S mgr u read_seq ≡ lookup u read_seq (h ++ past hs)
  get-Run mgr h hs u read_seq r a = get-Holds S mgr h hs u read_seq (Run-Holds mgr h hs r) a
