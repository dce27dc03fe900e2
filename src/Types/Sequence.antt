-- ===== src/Types/Sequence.antt =====
-- types/sequence.rs: sequence numbers, operation types and the global counter.
pub mod Allocation
use merutable.Prelude.{
  leb, if◌then◌else◌, ℕ, ◌+◌, ◌-◌, ◌%◌, ◌^◌, Option, none, some, compare, Ordering,
}

-- `SeqNum(u64)`
abbrev pub SeqNum : Type 0
SeqNum = ℕ

-- `SEQNUM_MAX`: 56 bits
abbrev pub seqnum_max : SeqNum
seqnum_max = 2 ^ 56 - 1

pub data OpType : Type 0 where
  delete put : OpType

-- `op_type as u8`
abbrev pub op_byte : OpType → ℕ
op_byte delete = 0
op_byte put = 1

-- `match op_byte { 0x00 => Delete, 0x01 => Put, _ => … }`
abbrev pub op_of_byte : ℕ → Option OpType
op_of_byte b = elim (compare b 0) [
  | Ordering.eq ↦ some delete
  | _ ↦ elim (compare b 1) [ Ordering.eq ↦ some put | _ ↦ none ]
]

-- `SeqNum::next`: `self.0 + 1` on a u64
abbrev pub next : SeqNum → SeqNum
next s = (s + 1) % 2 ^ 64

-- The counter of `GlobalSeq`, of which each call is one atomic step: the result, and the counter then
unfoldable pub allocate : ℕ → SeqNum × ℕ
allocate counter = (counter, (counter + 1) % 2 ^ 64)

unfoldable pub allocate_n : ℕ → ℕ → SeqNum × ℕ
allocate_n counter n = (counter, (counter + n) % 2 ^ 64)

-- The loop of `set_at_least` ends with its test or with its exchange.
unfoldable pub set_at_least : ℕ → ℕ → ℕ
set_at_least counter val = if leb val counter then counter else val
