-- ===== src/Wal/Batch.antt =====
-- wal/batch.rs: `WriteBatch` and its wire format. A reader takes the slice that is left and returns
-- what it read with what is left then, in place of `data: &mut &[u8]`.
pub mod Varint
pub mod RoundTrip
use merutable.Prelude.{
  ℕ, zero, suc, ◌+◌, ◌-◌, ◌*◌, ◌/◌, ◌%◌, ◌^◌, Bool, Option, none, some, List, [], ◌∷◌, ◌++◌, length,
  take, drop, ltb, leb, ◌==◌, if◌then◌else◌, Result, ok, err, ◌>>=◌, ◌>>◌, guard, corruption,
}
use merutable.Prelude.Bits.{bit_or, bit_and}
use merutable.Bytes.{Bytes, to_le_bytes, from_le_bytes}
use merutable.Types.Sequence.{SeqNum, OpType, op_byte}
use merutable.Types.Key.{check_op}

pub record BatchRecord : Type 0 where
  pub op_type : OpType
  pub user_key : Bytes
  pub value : Option Bytes

pub record WriteBatch : Type 0 where
  pub sequence : SeqNum
  pub records : List BatchRecord

-- `WriteBatch::new`
abbrev pub new : SeqNum → WriteBatch
new s = record { sequence = s; records = [] }

-- `WriteBatch::put`
unfoldable pub put : WriteBatch → Bytes → Bytes → WriteBatch
put b key value = record b {
  records = b.records ++ record { op_type = OpType.put; user_key = key; value = some value } ∷ [];
}

-- `WriteBatch::delete_with_pre_image`
unfoldable pub delete_with_pre_image : WriteBatch → Bytes → Bytes → WriteBatch
delete_with_pre_image b key pre_image = record b {
  records =
      b.records ++ record { op_type = OpType.delete; user_key = key; value = some pre_image } ∷ [];
}

-- `WriteBatch::delete`
unfoldable pub delete : WriteBatch → Bytes → WriteBatch
unfolding delete_with_pre_image
delete b key = delete_with_pre_image b key []

-- The loop of `put_varint`, with a count of rounds that bounds it: a u64 takes ten.
unfoldable pub put_varint_loop : ℕ → ℕ → Bytes
put_varint_loop zero val = []
put_varint_loop (suc rounds) val =
    let byte = bit_and val 0x7f in
    let rest = put_varint_loop rounds (val / 2 ^ 7) in
    if val / 2 ^ 7 == 0 then byte ∷ [] else bit_or byte 0x80 ∷ rest

unfoldable pub put_varint : ℕ → Bytes
put_varint val = put_varint_loop 10 val

-- `rec.value.as_ref().cloned().unwrap_or_default()`
abbrev pub value_bytes : Option Bytes → Bytes
value_bytes none = []
value_bytes (some v) = v

unfoldable pub encode_record : BatchRecord → Bytes
encode_record r =
    op_byte r.op_type ∷ put_varint (length r.user_key)
    ++ (r.user_key ++ (put_varint (length (value_bytes r.value)) ++ value_bytes r.value))

unfoldable pub encode_records : List BatchRecord → Bytes
encode_records [] = []
encode_records (r ∷ rs) = encode_record r ++ encode_records rs

-- `WriteBatch::encode`
unfoldable pub encode : WriteBatch → Bytes
encode b =
    to_le_bytes 8 b.sequence
    ++ (to_le_bytes 4 (length b.records % 2 ^ 32) ++ encode_records b.records)

unfoldable pub read_byte : Bytes → Result (ℕ × Bytes)
read_byte [] = err corruption
read_byte (b ∷ bytes) = ok (b, bytes)

unfoldable pub read_u64_le : Bytes → Result (ℕ × Bytes)
read_u64_le bytes = do
  guard (leb 8 (length bytes)) corruption
  ok (from_le_bytes (take 8 bytes), drop 8 bytes)

unfoldable pub read_u32_le : Bytes → Result (ℕ × Bytes)
read_u32_le bytes = do
  guard (leb 4 (length bytes)) corruption
  ok (from_le_bytes (take 4 bytes), drop 4 bytes)

-- The loop of `read_varint`: `val |= ((b & 0x7F) as u64) << shift`
unfoldable pub read_varint_loop : Bytes → ℕ → ℕ → Result (ℕ × Bytes)
read_varint_loop [] val shift = err corruption
read_varint_loop (b ∷ bytes) val shift =
    let val' = bit_or val (bit_and b 0x7f * 2 ^ shift % 2 ^ 64) in
    let more = read_varint_loop bytes val' (shift + 7) in
    if bit_and b 0x80 == 0
    then ok (val', bytes)
    else if leb 64 (shift + 7)
    then err corruption
    else more

unfoldable pub read_varint : Bytes → Result (ℕ × Bytes)
unfolding read_varint_loop
read_varint bytes = read_varint_loop bytes 0 0

unfoldable pub read_bytes : Bytes → ℕ → Result (Bytes × Bytes)
read_bytes bytes len = do
  guard (leb len (length bytes)) corruption
  ok (take len bytes, drop len bytes)

-- One round of the loop of `decode`
unfoldable pub decode_record : Bytes → Result (BatchRecord × Bytes)
decode_record bytes = do
  (op_byte', bytes) ← read_byte bytes
  op ← check_op op_byte'
  (key_len, bytes) ← read_varint bytes
  (key, bytes) ← read_bytes bytes key_len
  (val_len, bytes) ← read_varint bytes
  (val, bytes) ← read_bytes bytes val_len
  ok (record { op_type = op; user_key = key; value = some val }, bytes)

-- `for _ in 0..count`
unfoldable pub decode_records : ℕ → Bytes → Result (List BatchRecord × Bytes)
decode_records zero bytes = ok ([], bytes)
decode_records (suc count) bytes = do
  (r, bytes) ← decode_record bytes
  (rs, bytes) ← decode_records count bytes
  ok (r ∷ rs, bytes)

-- `WriteBatch::decode`
unfoldable pub decode : Bytes → Result WriteBatch
decode bytes = do
  guard (leb 12 (length bytes)) corruption
  (sequence, bytes) ← read_u64_le bytes
  (count, bytes) ← read_u32_le bytes
  (records, bytes) ← decode_records count bytes
  ok (record { sequence = sequence; records = records })

-- `WriteBatch::last_seq`: the addition is on u64
unfoldable pub last_seq : WriteBatch → SeqNum
last_seq b = (b.sequence + (length b.records - 1)) % 2 ^ 64
