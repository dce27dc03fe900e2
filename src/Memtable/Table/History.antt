-- ===== src/Memtable/Table/History.antt =====
-- A memtable and the history of what was applied to it.
use merutable.Memtable.Skiplist
use merutable.Types.Sequence.{next}
use merutable.Memtable.SkipMap.{insert_sorted}
use merutable.Memtable.Table.{
  Memtable, ikey_of, apply_records, apply_batch, new, get, bit_or, should_flush,
}
use merutable.Memtable.Skiplist.Newest.{get-lookup}
use merutable.Types.Sequence.{SeqNum, seqnum_max, op_byte}
use merutable.Memtable.Skiplist.Lookup.{Version, Descending, entries_of, key_of, Apart, lookup}
use merutable.Prelude.{
  ℕ, List, ◌≤◌, All, ◌<◌, ◌∷◌, ◌≡◌, ◌+◌, length, ◌^◌, arith, ◌-◌, [], ◌%◌, ◌*◌, ap, ◌++◌, ◌∙◌,
  if◌then◌else◌, false, leb, Bool, ap₂, subst, ok, sym, refl,
}
use merutable.Memtable.SkipMap.{SkipMap}
use merutable.Wal.Batch.{BatchRecord, value_bytes, WriteBatch}
use merutable.Memtable.Skiplist.{EntryValue}
use merutable.Bytes.{to_be_bytes, Bytes}
use merutable.Types.Key.Tag.{tag_word}

-- The history after a batch, newest version first: one sequence number for each record
unfoldable pub history_of : SeqNum → List BatchRecord → List Version → List Version
history_of seq [] h = h
history_of seq (r ∷ rs) h = history_of (seq + 1) rs (
    record {
      user_key = r.user_key;
      seq = seq;
      entry = record { op_type = r.op_type; value = value_bytes r.value };
    }
    ∷ h)

-- A batch takes sequence numbers above those of the history, and below `SEQNUM_MAX`.
abbrev pub Follows : SeqNum → List BatchRecord → List Version → Type 0
Follows seq rs h = (All (λ v. v.seq < seq) h) × (seq + length rs ≤ seqnum_max)

pub ikey_of-key_of :
    (v : Version) → v.seq ≤ seqnum_max → ikey_of v.user_key v.seq v.entry.op_type ≡ key_of v
unfolding ikey_of
ikey_of-key_of v h =
    let inverted : (seqnum_max + 2 ^ 64 - v.seq) % 2 ^ 64 * 2 ^ 8 % 2 ^ 64
        ≡ (seqnum_max - v.seq) * 2 ^ 8 =
      omega arith in
    ap (λ n. v.user_key ++ to_be_bytes 8 (bit_or n (op_byte v.entry.op_type))) inverted
    ∙ ap (λ n. v.user_key ++ to_be_bytes 8 n) (tag_word v.seq v.entry.op_type)

All-lt : (n : ℕ) (h : List Version) → All (λ v. v.seq < n) h → All (λ v. v.seq < n + 1) h
All-lt n [] g = tt
All-lt n (v ∷ h) g = (omega (arith, g.0), All-lt n h g.1)

pub history_of-Descending :
    (rs : List BatchRecord) (seq : SeqNum) (h : List Version)
    → Follows seq rs h
    → Descending h
    → Descending (history_of seq rs h)
unfolding history_of
history_of-Descending [] seq h f d = d
history_of-Descending (r ∷ rs) seq h f d =
    history_of-Descending rs (seq + 1) _ ((omega arith, All-lt seq h f.0), omega (arith, f.1))
      (omega (arith, f.1), f.0, d)

module _ (S : SkipMap EntryValue) where
  -- A memtable holds the versions of a history.
  abbrev pub Represents : Memtable S.Map → List Version → Type 0
  Represents mt h = S.iter mt.skiplist.map ≡ entries_of h

  pub new-Represents :
      (first_seq : SeqNum) (flush_threshold : ℕ) → Represents (new S first_seq flush_threshold) []
  unfolding new Skiplist.new entries_of
  new-Represents first_seq flush_threshold = S.iter-new

  pub apply_records-Represents :
      (rs : List BatchRecord) (mt : Memtable S.Map) (seq : SeqNum) (h : List Version)
      → Follows seq rs h
      → Represents mt h
      → Represents (apply_records S mt seq rs) (history_of seq rs h)
  unfolding apply_records history_of entries_of Skiplist.insert
  apply_records-Represents [] mt seq h f e = e
  apply_records-Represents (r ∷ rs) mt seq h f e =
      let v : Version = record {
        user_key = r.user_key;
        seq = seq;
        entry = record { op_type = r.op_type; value = value_bytes r.value };
      } in
      let value = value_bytes r.value in
      let mt' : Memtable S.Map = record mt {
        skiplist =
            Skiplist.insert S mt.skiplist (ikey_of r.user_key seq r.op_type) v.entry (length value);
        size_bytes = (mt.size_bytes + (length r.user_key + 8 + length value + 64)) % 2 ^ 64;
        last_seq = if leb seq mt.last_seq then mt.last_seq else seq;
      } in
      let added : Represents mt' (v ∷ h) =
        S.iter-insert mt.skiplist.map (ikey_of r.user_key seq r.op_type) v.entry
        ∙ ap₂ (λ k l. insert_sorted k v.entry l) (ikey_of-key_of v (omega (arith, f.1))) e in
      let same : next seq ≡ seq + 1 = omega (arith, f.1) in
      subst (λ n. Represents (apply_records S mt' n rs) (history_of (seq + 1) rs (v ∷ h)))
        (sym same)
        (apply_records-Represents rs mt' (seq + 1) (v ∷ h)
          ((omega arith, All-lt seq h f.0), omega (arith, f.1)) added)

  apply_records-sealed :
      (rs : List BatchRecord) (mt : Memtable S.Map) (seq : SeqNum)
      → (apply_records S mt seq rs).sealed ≡ mt.sealed
  unfolding apply_records
  apply_records-sealed [] mt seq = refl
  apply_records-sealed (r ∷ rs) mt seq = apply_records-sealed rs _ (next seq)

  -- An open memtable takes a batch that follows its history, and then holds that history with the
  -- versions of the batch; it stays open.
  pub apply_batch-Represents :
      (mt : Memtable S.Map) (b : WriteBatch) (h : List Version)
      → mt.sealed ≡ false
      → Follows b.sequence b.records h
      → Represents mt h
      → (flush : Bool) × (mt' : Memtable S.Map) × (apply_batch S mt b ≡ ok (flush, mt'))
        × Represents mt' (history_of b.sequence b.records h)
        × (mt'.sealed ≡ false)
  unfolding apply_batch
  apply_batch-Represents mt b h open_ f e = (
    should_flush S (apply_records S mt b.sequence b.records),
    apply_records S mt b.sequence b.records,
    rw open_,
    apply_records-Represents b.records mt b.sequence h f e,
    apply_records-sealed b.records mt b.sequence ∙ open_,
  )

  pub get-Represents :
      (mt : Memtable S.Map) (h : List Version) (u : Bytes) (read_seq : SeqNum)
      → Represents mt h
      → Descending h
      → All (λ v. Apart u v.user_key) h
      → get S mt u read_seq ≡ lookup u read_seq h
  unfolding get
  get-Represents mt h u read_seq e d a = get-lookup S mt.skiplist h u read_seq e d a
