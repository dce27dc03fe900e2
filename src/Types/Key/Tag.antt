-- ===== src/Types/Key/Tag.antt =====
-- The eight tag bytes: `(SEQNUM_MAX - seq) << 8 | op_type`, and their order.
use merutable.Types.Sequence.{SeqNum, seqnum_max, OpType, delete, put, op_byte}
use merutable.Types.Key.{encode_tag}
use merutable.Bytes.{Bytes, to_be_bytes, cmp_bytes}
use merutable.Bytes.Order.{cmp_bytes-to_be_bytes, compare_split}
use merutable.Prelude.Bits.{bit_or, bit_or-shifted}
use merutable.Prelude.{◌≤◌, ◌-◌, ◌≡◌, ◌<◌, ℕ, arith, then_cmp, ◌^◌, ok, ◌*◌, compare, ◌+◌, ◌∙◌, ap}

-- The tag as a number
abbrev pub tag_of : SeqNum → OpType → ℕ
tag_of seq op = (seqnum_max - seq) * 256 + op_byte op

op_byte-lt : (op : OpType) → op_byte op < 2
op_byte-lt delete = omega arith
op_byte-lt put = omega arith

-- `(inverted << 8) | op_type` is the sum.
pub tag_word :
    (seq : SeqNum) (op : OpType) → bit_or ((seqnum_max - seq) * 2 ^ 8) (op_byte op) ≡ tag_of seq op
tag_word seq op = bit_or-shifted 8 (seqnum_max - seq) (op_byte op) (omega (arith, op_byte-lt op))

pub tag_of-lt : (seq : SeqNum) (op : OpType) → tag_of seq op < 256 ^ 8
tag_of-lt seq op = omega (arith, op_byte-lt op)

-- What `encode_tag` accepts and writes.
pub encode_tag-eq-ok :
    (seq : SeqNum) (op : OpType) (b : Bytes)
    → encode_tag seq op ≡ ok b
    → (seq ≤ seqnum_max) × (b ≡ to_be_bytes 8 (tag_of seq op))
unfolding encode_tag
encode_tag-eq-ok seq op b h = ground (arith, tag_word seq op)

pub encode_tag_lem :
    (seq : SeqNum) (op : OpType)
    → seq ≤ seqnum_max
    → encode_tag seq op ≡ ok (to_be_bytes 8 (tag_of seq op))
unfolding encode_tag
encode_tag_lem seq op h = ground (arith, tag_word seq op)

-- Tags compare by the sequence number downwards, and by the operation then.
pub cmp_bytes-tag :
    (seq seq' : SeqNum) (op op' : OpType)
    → seq ≤ seqnum_max
    → seq' ≤ seqnum_max
    → cmp_bytes (to_be_bytes 8 (tag_of seq op)) (to_be_bytes 8 (tag_of seq' op'))
      ≡ then_cmp (compare seq' seq) (compare (op_byte op) (op_byte op'))
cmp_bytes-tag seq seq' op op' h g =
    cmp_bytes-to_be_bytes 8 (tag_of seq op) (tag_of seq' op') (tag_of-lt seq op)
      (tag_of-lt seq' op')
    ∙ compare_split 256 (seqnum_max - seq) (seqnum_max - seq') (op_byte op) (op_byte op')
        (omega (arith, op_byte-lt op)) (omega (arith, op_byte-lt op'))
    ∙ ap (λ c. then_cmp c (compare (op_byte op) (op_byte op'))) inverted
  where
    inverted : compare (seqnum_max - seq) (seqnum_max - seq') ≡ compare seq' seq
    inverted = ground arith
