-- ===== src/Memtable/Skiplist.antt =====
-- memtable/skiplist.rs: the entries of a memtable, keyed by the user key and the tag. Counters are
-- u64 and usize, both of 64 bits.
pub mod Lookup
pub mod Newest
use merutable.Memtable.SkipMap.{SkipMap}
use merutable.Types.Sequence.{OpType, SeqNum, seqnum_max}
use merutable.Bytes.{Bytes, from_be_bytes, eq_bytes}
use merutable.Prelude.{
  ℕ, List, Option, ◌-◌, ◌++◌, ◌∷◌, take, length, ◌+◌, none, [], drop, ◌%◌, ◌/◌, if◌then◌else◌, ltb,
  ◌^◌, not, leb, some,
}

pub record EntryValue : Type 0 where
  pub op_type : OpType
  pub value : Bytes

-- `SEEK_TAG`
abbrev pub seek_tag : Bytes
seek_tag = 0 ∷ 0 ∷ 0 ∷ 0 ∷ 0 ∷ 0 ∷ 0 ∷ 1 ∷ []

unfoldable pub build_seek_key : Bytes → Bytes
build_seek_key user_key_bytes = user_key_bytes ++ seek_tag

-- The keys that reach these functions have the eight bytes of a tag; on a shorter one the slice
-- would panic.
unfoldable pub decode_seq_from_key : Bytes → SeqNum
decode_seq_from_key ikey_bytes =
    seqnum_max - from_be_bytes (drop (length ikey_bytes - 8) ikey_bytes) / 2 ^ 8

unfoldable pub user_key_of : Bytes → Bytes
user_key_of ikey_bytes = take (length ikey_bytes - 8) ikey_bytes

pub record MemtableSkipList (Map : Type 0) : Type 0 where
  pub map : Map
  pub entry_count : ℕ
  pub size_bytes : ℕ

-- The loop of `get`, from where the cursor stands
unfoldable pub get_loop : Bytes → SeqNum → List (Bytes × EntryValue) → Option EntryValue
get_loop user_key_bytes read_seq [] = none
get_loop user_key_bytes read_seq ((found_key, entry) ∷ next) =
    let rest = get_loop user_key_bytes read_seq next in
    if ltb (length found_key) (length user_key_bytes + 8)
    then none
    else if not (eq_bytes (take (length user_key_bytes) found_key) user_key_bytes)
    then none
    else if leb (decode_seq_from_key found_key) read_seq
    then some entry
    else rest

module _ (S : SkipMap EntryValue) where
  -- `MemtableSkipList::new`
  unfoldable pub new : MemtableSkipList S.Map
  new = record { map = S.new; entry_count = 0; size_bytes = 0 }

  -- `MemtableSkipList::insert`
  unfoldable pub insert : MemtableSkipList S.Map → Bytes → EntryValue → ℕ → MemtableSkipList S.Map
  insert s ikey_bytes entry value_size = record {
    map = S.insert s.map ikey_bytes entry;
    entry_count = (s.entry_count + 1) % 2 ^ 64;
    size_bytes = (s.size_bytes + (length ikey_bytes + value_size + 64)) % 2 ^ 64;
  }

  -- `MemtableSkipList::get`
  unfoldable pub get : MemtableSkipList S.Map → Bytes → SeqNum → Option EntryValue
  unfolding get_loop
  get s user_key_bytes read_seq =
      get_loop user_key_bytes read_seq (S.lower_bound s.map (build_seek_key user_key_bytes))

  -- `MemtableSkipList::iter`
  abbrev pub iter : MemtableSkipList S.Map → List (Bytes × EntryValue)
  iter s = S.iter s.map
