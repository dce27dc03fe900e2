-- ===== src/Wal/Batch/RoundTrip.antt =====
-- `decode` after `encode`, for whole batches.
use merutable.Types.Key.Decode.{check_op-op_byte}
use merutable.Bytes.{Bytes, to_le_bytes}
use merutable.Bytes.Words.{length-to_le_bytes, from_le_bytes-to_le_bytes}
use merutable.Wal.Batch.{
  BatchRecord, WriteBatch, put_varint, value_bytes, encode_record, encode_records, encode,
  read_byte, read_u64_le, read_u32_le, read_bytes, decode_record, decode_records, decode,
}
use merutable.Wal.Batch.Varint.{read_varint-put_varint}
use merutable.Prelude.{
  ◌++◌, some, length, ◌<◌, ◌≡◌, ◌^◌, ok, le→leb, append_assoc, arith, length-append,
  take-append_length, drop-append_length, refl, List, All, ℕ, sym, leb, map, ◌∷◌, ◌%◌, true, [],
}

-- A record as `decode` returns it: a missing value is an empty one.
abbrev pub normalized : BatchRecord → BatchRecord
normalized r = record r { value = some (value_bytes r.value) }

-- The sizes that the length fields of the format can carry.
abbrev pub Fits : BatchRecord → Type 0
Fits r = (length r.user_key < 2 ^ 64) × (length (value_bytes r.value) < 2 ^ 64)

read_bytes-append : (x rest : Bytes) → read_bytes (x ++ rest) (length x) ≡ ok (x, rest)
unfolding read_bytes
read_bytes-append x rest = rw (
  le→leb (length x) (length (x ++ rest)) (omega (arith, length-append x rest)),
  take-append_length (length x) x rest refl,
  drop-append_length (length x) x rest refl,
)

-- One record is read back from the head of any slice.
pub decode_record-encode_record :
    (r : BatchRecord) (rest : Bytes)
    → Fits r
    → decode_record (encode_record r ++ rest) ≡ ok (normalized r, rest)
unfolding decode_record encode_record read_byte
decode_record-encode_record r rest h = rw (
  check_op-op_byte r.op_type,
  append_assoc (put_varint (length r.user_key))
      (r.user_key ++ (put_varint (length (value_bytes r.value)) ++ value_bytes r.value)) rest,
  append_assoc r.user_key (put_varint (length (value_bytes r.value)) ++ value_bytes r.value) rest,
  append_assoc (put_varint (length (value_bytes r.value))) (value_bytes r.value) rest,
  read_varint-put_varint (length r.user_key)
      (r.user_key ++ (put_varint (length (value_bytes r.value)) ++ (value_bytes r.value ++ rest)))
      h.0,
  read_bytes-append r.user_key
      (put_varint (length (value_bytes r.value)) ++ (value_bytes r.value ++ rest)),
  read_varint-put_varint (length (value_bytes r.value)) (value_bytes r.value ++ rest) h.1,
  read_bytes-append (value_bytes r.value) rest,
)

decode_records-encode_records :
    (rs : List BatchRecord) (rest : Bytes)
    → All Fits rs
    → decode_records (length rs) (encode_records rs ++ rest) ≡ ok (map normalized rs, rest)
unfolding decode_records encode_records
decode_records-encode_records [] rest h = refl
decode_records-encode_records (r ∷ rs) rest h = rw (
  append_assoc (encode_record r) (encode_records rs) rest,
  decode_record-encode_record r (encode_records rs ++ rest) h.0,
  decode_records-encode_records rs rest h.1,
)

read_u64_le-append :
    (v : ℕ) (rest : Bytes) → v < 2 ^ 64 → read_u64_le (to_le_bytes 8 v ++ rest) ≡ ok (v, rest)
unfolding read_u64_le
read_u64_le-append v rest h = rw (
  le→leb 8 (length (to_le_bytes 8 v ++ rest))
      (omega (arith, length-append (to_le_bytes 8 v) rest, length-to_le_bytes 8 v)),
  take-append_length 8 (to_le_bytes 8 v) rest (sym (length-to_le_bytes 8 v)),
  drop-append_length 8 (to_le_bytes 8 v) rest (sym (length-to_le_bytes 8 v)),
  from_le_bytes-to_le_bytes 8 v h,
)

read_u32_le-append :
    (v : ℕ) (rest : Bytes) → v < 2 ^ 32 → read_u32_le (to_le_bytes 4 v ++ rest) ≡ ok (v, rest)
unfolding read_u32_le
read_u32_le-append v rest h = rw (
  le→leb 4 (length (to_le_bytes 4 v ++ rest))
      (omega (arith, length-append (to_le_bytes 4 v) rest, length-to_le_bytes 4 v)),
  take-append_length 4 (to_le_bytes 4 v) rest (sym (length-to_le_bytes 4 v)),
  drop-append_length 4 (to_le_bytes 4 v) rest (sym (length-to_le_bytes 4 v)),
  from_le_bytes-to_le_bytes 4 v h,
)

header_long :
    (a b : ℕ) (rest : Bytes) → leb 12 (length (to_le_bytes 8 a ++ (to_le_bytes 4 b ++ rest))) ≡ true
header_long a b rest = le→leb _ _ (
    omega (
      arith,
      length-append (to_le_bytes 8 a) (to_le_bytes 4 b ++ rest),
      length-append (to_le_bytes 4 b) rest,
      length-to_le_bytes 8 a,
      length-to_le_bytes 4 b,
    ))

-- What `decode` makes of the bytes that `encode` wrote, with any bytes behind them: the batch, with
-- a missing value read as an empty one. The sequence number is a u64, the number of records and the
-- lengths fit their fields.
pub decode-encode_batch :
    (b : WriteBatch) (rest : Bytes)
    → b.sequence < 2 ^ 64
    → length b.records < 2 ^ 32
    → All Fits b.records
    → decode (encode b ++ rest) ≡ ok (record b { records = map normalized b.records })
unfolding decode encode
decode-encode_batch b rest hs hn hr =
    let n : ℕ = length b.records % 2 ^ 32 in
    let small : n ≡ length b.records = omega arith in
    rw
      (
        append_assoc (to_le_bytes 8 b.sequence) (to_le_bytes 4 n ++ encode_records b.records) rest,
        append_assoc (to_le_bytes 4 n) (encode_records b.records) rest,
        header_long b.sequence n (encode_records b.records ++ rest),
        read_u64_le-append b.sequence (to_le_bytes 4 n ++ (encode_records b.records ++ rest)) hs,
        read_u32_le-append n (encode_records b.records ++ rest) (omega arith),
      )
      (rw (small, decode_records-encode_records b.records rest hr))
