-- ===== src/Memtable/Table.antt =====
-- memtable/memtable.rs and memtable/iterator.rs: one memtable. Its counters are atomics; one thread
-- at a time is modelled. `usize` has 64 bits.
pub mod History
use merutable.Memtable.SkipMap.{SkipMap}
use merutable.Memtable.Skiplist
use merutable.Memtable.Skiplist.{EntryValue, MemtableSkipList, decode_seq_from_key, user_key_of}
use merutable.Types.Sequence.{SeqNum, OpType, seqnum_max, op_byte, next}
use merutable.Wal.Batch.{BatchRecord, WriteBatch, value_bytes}
use merutable.Bytes.{Bytes, to_be_bytes, eq_bytes}
use merutable.Prelude.Bits.{bit_or}
use merutable.Prelude.{
  panic, ok, ◌||◌, true, ℕ, List, Result, ◌+◌, Option, Bool, ◌^◌, false, ◌∷◌, if◌then◌else◌, none,
  leb, ltb, some, ◌-◌, length, ◌%◌, [], ◌++◌, ◌*◌,
}

pub record Memtable (Map : Type 0) : Type 0 where
  pub skiplist : MemtableSkipList Map
  pub first_seq : SeqNum
  pub last_seq : SeqNum
  pub size_bytes : ℕ
  pub sealed : Bool
  pub flush_threshold : ℕ

-- A snapshot of one entry
pub record MemEntry : Type 0 where
  pub user_key : Bytes
  pub seq : SeqNum
  pub entry : EntryValue

-- The key that `apply_batch` builds: `SEQNUM_MAX.0 - seq.0` and the shift are on u64
unfoldable pub ikey_of : Bytes → SeqNum → OpType → Bytes
ikey_of user_key seq op_type =
    let inverted = (seqnum_max + 2 ^ 64 - seq) % 2 ^ 64 in
    user_key ++ to_be_bytes 8 (bit_or (inverted * 2 ^ 8 % 2 ^ 64) (op_byte op_type))

-- `if let Some(ref last) = self.last_user_key { if *last == uk … }`
abbrev pub is_last : Option Bytes → Bytes → Bool
is_last none uk = false
is_last (some last) uk = eq_bytes last uk

-- The loop of `MemtableIterator::next`, with `last_user_key`, run to the end
unfoldable pub collect_latest : SeqNum → Option Bytes → List (Bytes × EntryValue) → List MemEntry
collect_latest read_seq last_user_key [] = []
collect_latest read_seq last_user_key ((ikey_bytes, entry) ∷ inner) =
    let seq = decode_seq_from_key ikey_bytes in
    let uk = user_key_of ikey_bytes in
    elim (ltb read_seq seq || is_last last_user_key uk) [
      | true ↦ collect_latest read_seq last_user_key inner
      | false ↦
          record { user_key = uk; seq = seq; entry = entry }
          ∷ collect_latest read_seq (some uk) inner
    ]

-- The `filter_map` of `iter_all_versions`
unfoldable pub collect_all : SeqNum → List (Bytes × EntryValue) → List MemEntry
collect_all read_seq [] = []
collect_all read_seq ((ikey_bytes, entry) ∷ inner) =
    let rest = collect_all read_seq inner in
    let seq = decode_seq_from_key ikey_bytes in
    if ltb read_seq seq
    then rest
    else record { user_key = user_key_of ikey_bytes; seq = seq; entry = entry } ∷ rest

module _ (S : SkipMap EntryValue) where
  -- `Memtable::new`
  unfoldable pub new : SeqNum → ℕ → Memtable S.Map
  new first_seq flush_threshold = record {
    skiplist = Skiplist.new S;
    first_seq = first_seq;
    last_seq = first_seq;
    size_bytes = 0;
    sealed = false;
    flush_threshold = flush_threshold;
  }

  -- The loop of `apply_batch`. The loop that raises `last_seq` writes the greater number.
  unfoldable pub apply_records : Memtable S.Map → SeqNum → List BatchRecord → Memtable S.Map
  apply_records mt seq [] = mt
  apply_records mt seq (r ∷ rs) =
      let value = value_bytes r.value in
      let ikey_bytes = ikey_of r.user_key seq r.op_type in
      let entry : EntryValue = record { op_type = r.op_type; value = value } in
      apply_records
        (record mt {
          skiplist = Skiplist.insert S mt.skiplist ikey_bytes entry (length value);
          size_bytes = (mt.size_bytes + (length r.user_key + 8 + length value + 64)) % 2 ^ 64;
          last_seq = if leb seq mt.last_seq then mt.last_seq else seq;
        })
        (next seq) rs

  abbrev pub should_flush : Memtable S.Map → Bool
  should_flush mt = leb mt.flush_threshold mt.size_bytes

  -- `Memtable::apply_batch`
  unfoldable pub apply_batch : Memtable S.Map → WriteBatch → Result (Bool × Memtable S.Map)
  apply_batch mt b =
      let mt' = apply_records mt b.sequence b.records in
      if mt.sealed then panic else ok (should_flush mt', mt')

  -- `Memtable::seal`
  abbrev pub seal : Memtable S.Map → Memtable S.Map
  seal mt = record mt { sealed = true }

  -- `Memtable::get`
  unfoldable pub get : Memtable S.Map → Bytes → SeqNum → Option EntryValue
  get mt user_key_bytes read_seq = Skiplist.get S mt.skiplist user_key_bytes read_seq

  -- `Memtable::iter`, collected
  unfoldable pub iter : Memtable S.Map → SeqNum → List MemEntry
  iter mt read_seq = collect_latest read_seq none (Skiplist.iter S mt.skiplist)

  -- `Memtable::iter_all_versions`
  unfoldable pub iter_all_versions : Memtable S.Map → SeqNum → List MemEntry
  iter_all_versions mt read_seq = collect_all read_seq (Skiplist.iter S mt.skiplist)
