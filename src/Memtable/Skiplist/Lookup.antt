-- ===== src/Memtable/Skiplist/Lookup.antt =====
-- `get` finds the latest version that a reader may see.
pub mod Scan
use merutable.Bytes.{to_be_bytes, Bytes, cmp_bytes, eq_bytes}
use merutable.Types.Key.Tag.{tag_of, tag_of-lt, cmp_bytes-tag}
use merutable.Prelude.{
  List, ◌≤◌, ◌∷◌, ◌++◌, All, ◌≡◌, Bool, Ordering-cases, ◌<◌, Option, [], take-append_length, arith,
  none, inl, lt, refl, length-append, ◌&&◌, inr, if◌then◌else◌, leb, subst, ℕ, some, sym,
  drop-append_length, length, ◌-◌,
}
use merutable.Memtable.Skiplist.{decode_seq_from_key, user_key_of, EntryValue}
use merutable.Memtable.SkipMap.{insert_sorted}
use merutable.Types.Sequence.{SeqNum, seqnum_max, OpType, op_byte}
use merutable.Bytes.Prefix.{cmp_bytes_trans, cmp_bytes-gt}
use merutable.Bytes.Words.{length-to_be_bytes, from_be_bytes-to_be_bytes}
use merutable.Bytes.Order.{eq_of_cmp_bytes}
use merutable.Memtable.SkipMap.Sorted.{IsSorted, insert_sorted-All, insert_sorted-IsSorted}

-- A version of a row: what a writer inserted under a user key and a sequence number
pub record Version : Type 0 where
  pub user_key : Bytes
  pub seq : SeqNum
  pub entry : EntryValue

-- The key of a version: `[user_key][tag]`
abbrev pub key_of : Version → Bytes
key_of v = v.user_key ++ to_be_bytes 8 (tag_of v.seq v.entry.op_type)

-- Whether a reader of a user key at `read_seq` may see a version
abbrev pub sees : Bytes → SeqNum → Version → Bool
sees u read_seq v = eq_bytes v.user_key u && leb v.seq read_seq

-- What is to be found in a history, newest version first: the first that the reader sees
unfoldable pub lookup : Bytes → SeqNum → List Version → Option EntryValue
lookup u read_seq [] = none
lookup u read_seq (v ∷ older) =
    let rest = lookup u read_seq older in if sees u read_seq v then some v.entry else rest

-- Neither user key is a proper front of the other.
abbrev pub Apart : Bytes → Bytes → Type 0
Apart u w = (x y : Bytes) → u ++ x ≡ w ++ y → u ≡ w

-- Sequence numbers fall along a history, and are below `SEQNUM_MAX`.
abbrev pub Descending : List Version → Type 0
Descending [] = Unit
Descending (v ∷ older) = (v.seq < seqnum_max) × (All (λ w. w.seq < v.seq) older) × Descending older

-- The entries of a history, by key
unfoldable pub entries_of : List Version → List (Bytes × EntryValue)
entries_of [] = []
entries_of (v ∷ older) = insert_sorted (key_of v) v.entry (entries_of older)

pub user_key_of-key_of : (v : Version) → user_key_of (key_of v) ≡ v.user_key
unfolding user_key_of
user_key_of-key_of v =
    take-append_length _ v.user_key (to_be_bytes 8 (tag_of v.seq v.entry.op_type)) (
      omega (
        arith,
        length-append v.user_key (to_be_bytes 8 (tag_of v.seq v.entry.op_type)),
        length-to_be_bytes 8 (tag_of v.seq v.entry.op_type),
      ))

pub decode_seq-key_of : (v : Version) → v.seq ≤ seqnum_max → decode_seq_from_key (key_of v) ≡ v.seq
unfolding decode_seq_from_key
decode_seq-key_of v h =
    let tag : ℕ = tag_of v.seq v.entry.op_type in
    rw
      (
        drop-append_length (length (key_of v) - 8) v.user_key (to_be_bytes 8 tag)
            (omega (arith, length-append v.user_key (to_be_bytes 8 tag), length-to_be_bytes 8 tag)),
        from_be_bytes-to_be_bytes 8 tag (tag_of-lt v.seq v.entry.op_type),
      )
      (omega (arith, op_byte_small v.entry.op_type))
  where
    op_byte_small : (o : OpType) → op_byte o < 2
    op_byte_small OpType.delete = omega arith
    op_byte_small OpType.put = omega arith

-- An entry is that of a version with a property.
abbrev pub Stored : (Version → Type 0) → Bytes × EntryValue → Type 0
Stored Q p = (v : Version) × (p.0 ≡ key_of v) × (p.1 ≡ v.entry) × Q v

pub entries_of-Stored :
    (Q : Version → Type 0) (h : List Version) → All Q h → All (Stored Q) (entries_of h)
unfolding entries_of
entries_of-Stored Q [] q = tt
entries_of-Stored Q (v ∷ h) q =
    insert_sorted-All (Stored Q) (key_of v) v.entry (entries_of h) (v, refl, refl, q.0)
      (entries_of-Stored Q h q.1)

pub entries_of-IsSorted : (h : List Version) → IsSorted (entries_of h)
unfolding entries_of
entries_of-IsSorted [] = tt
entries_of-IsSorted (v ∷ h) =
    insert_sorted-IsSorted (key_of v) v.entry (entries_of h) (entries_of-IsSorted h)
