-- ===== src/Types/Key.antt =====
-- types/key.rs: the internal key and its byte encoding. The functions that take `buf: &mut Vec<u8>`
-- only push onto it; here they return what they push.
pub mod Fields
pub mod Tag
pub mod Order
pub mod Decode
mod Examples
use merutable.Prelude.{
  ℕ, zero, suc, ◌+◌, ◌-◌, ◌*◌, ◌/◌, ◌%◌, ◌^◌, Bool, true, false, not, ◌||◌, ◌&&◌, List, [], ◌∷◌,
  ◌++◌, take, drop, length, ltb, leb, ◌==◌, if◌then◌else◌, Result, ok, err, panic, ◌>>=◌, ◌>>◌,
  guard, corruption, invalid_argument, schema_mismatch, Option, none, some, Ordering,
}
use merutable.Prelude.Int.{ℤ, as_unsigned, as_signed, as_usize}
use merutable.Prelude.Bits.{bit_or, bit_xor, bit_and}
use merutable.Bytes.{Bytes, to_be_bytes, from_be_bytes, cmp_bytes}
use merutable.Types.Sequence.{SeqNum, seqnum_max, OpType, put, op_byte, op_of_byte}
use merutable.Types.Value.{FieldValue}
use merutable.Types.Schema.{ColumnType, TableSchema, col_type_at}

pub record InternalKey : Type 0 where
  pub encoded : Bytes
  pub seq : SeqNum
  pub op_type : OpType
  pub pk_values : List FieldValue

-- `f32::is_nan` and `f64::is_nan`, on the bits: the exponent is all ones and the fraction is not 0
abbrev pub is_nan32 : ℕ → Bool
is_nan32 bits = bits / 2 ^ 23 % 2 ^ 8 == 0xff && not (bits % 2 ^ 23 == 0)

abbrev pub is_nan64 : ℕ → Bool
is_nan64 bits = bits / 2 ^ 52 % 2 ^ 11 == 0x7ff && not (bits % 2 ^ 52 == 0)

unfoldable pub escape_byte_array : Bytes → Bytes
escape_byte_array [] = 0x00 ∷ 0x00 ∷ []
escape_byte_array (b ∷ bs) =
    let rest = escape_byte_array bs in if b == 0x00 then 0x00 ∷ 0xff ∷ rest else b ∷ rest

-- The number that `order_preserving_f32` and `order_preserving_f64` write, for k = 31 and k = 63
unfoldable pub flip_float : ℕ → ℕ → ℕ
flip_float k bits = if bits / 2 ^ k == 1 then 2 ^ suc k - 1 - bits else bit_xor bits (2 ^ k)

unfoldable pub order_preserving_f32 : ℕ → Bytes
unfolding flip_float
order_preserving_f32 bits = to_be_bytes 4 (flip_float 31 bits)

unfoldable pub order_preserving_f64 : ℕ → Bytes
unfolding flip_float
order_preserving_f64 bits = to_be_bytes 8 (flip_float 63 bits)

unfoldable pub encode_field : FieldValue → ColumnType → Result Bytes
encode_field (FieldValue.boolean b) ColumnType.boolean = ok ((if b then 1 else 0) ∷ [])
encode_field (FieldValue.int32 v) ColumnType.int32 =
    ok (to_be_bytes 4 (bit_xor (as_unsigned 31 v) 0x8000_0000))
encode_field (FieldValue.int64 v) ColumnType.int64 =
    ok (to_be_bytes 8 (bit_xor (as_unsigned 63 v) 0x8000_0000_0000_0000))
encode_field (FieldValue.float v) ColumnType.float =
    if is_nan32 v then err invalid_argument else ok (order_preserving_f32 v)
encode_field (FieldValue.double v) ColumnType.double =
    if is_nan64 v then err invalid_argument else ok (order_preserving_f64 v)
encode_field (FieldValue.bytes b) (ColumnType.fixed_len_byte_array n) =
    if length b == as_usize n then ok b else err schema_mismatch
encode_field (FieldValue.bytes b) ColumnType.byte_array = ok (escape_byte_array b)
encode_field _ _ = err schema_mismatch

-- The `zip` loop of `encode_pk_fields`
unfoldable pub encode_pk_loop : List FieldValue → List ℕ → TableSchema → Result Bytes
encode_pk_loop [] idx schema = ok []
encode_pk_loop (v ∷ vs) [] schema = ok []
encode_pk_loop (v ∷ vs) (i ∷ is) schema = do
  t ← col_type_at schema i
  b ← encode_field v t
  rest ← encode_pk_loop vs is schema
  ok (b ++ rest)

unfoldable pub encode_pk_fields : List FieldValue → TableSchema → Result Bytes
encode_pk_fields values schema = do
  guard (length values == length schema.primary_key) invalid_argument
  encode_pk_loop values schema.primary_key schema

unfoldable pub encode_tag : SeqNum → OpType → Result Bytes
encode_tag seq op = do
  guard (leb seq seqnum_max) invalid_argument
  ok (to_be_bytes 8 (bit_or ((seqnum_max - seq) * 2 ^ 8) (op_byte op)))

-- `InternalKey::encode`
unfoldable pub encode : List FieldValue → SeqNum → OpType → TableSchema → Result InternalKey
encode pk seq op schema = do
  user ← encode_pk_fields pk schema
  tag ← encode_tag seq op
  ok (record { encoded = user ++ tag; seq = seq; op_type = op; pk_values = pk })

-- `InternalKey::seek_latest`
unfoldable pub seek_latest : List FieldValue → TableSchema → Result InternalKey
seek_latest pk schema = encode pk seqnum_max put schema

-- `InternalKey::encode_user_key`
unfoldable pub encode_user_key : List FieldValue → TableSchema → Result Bytes
encode_user_key pk schema = encode_pk_fields pk schema

-- `InternalKey::user_key_bytes`
unfoldable pub user_key_bytes : InternalKey → Bytes
user_key_bytes k = take (length k.encoded - 8) k.encoded

-- `Ord for InternalKey`
unfoldable pub cmp : InternalKey → InternalKey → Ordering
cmp a b = cmp_bytes a.encoded b.encoded

unfoldable pub ensure_len : Bytes → ℕ → Result (Unit {0})
ensure_len bytes required = guard (leb required (length bytes)) corruption

-- The loop of `unescape_byte_array` on what is left of the slice: the bytes that it still pushes,
-- and how many it still consumes
unfoldable pub unescape_byte_array : Bytes → Result (Bytes × ℕ)
unescape_byte_array [] = err corruption
unescape_byte_array (zero ∷ []) = err corruption
unescape_byte_array (zero ∷ c ∷ rest) =
    let escaped = (do (out, n) ← unescape_byte_array rest; ok (0x00 ∷ out, n + 2)) in
    if c == 0xff then escaped else if c == 0x00 then ok ([], 2) else err corruption
unescape_byte_array (suc b ∷ rest) = do (out, n) ← unescape_byte_array rest; ok (suc b ∷ out, n + 1)

-- `bits >> k == 0`: the first bit that was written tells a flipped negative float
unfoldable pub unflip_float : ℕ → ℕ → ℕ
unflip_float k bits = if bits / 2 ^ k == 0 then bit_xor bits (2 ^ k) else 2 ^ suc k - 1 - bits

unfoldable pub decode_field : Bytes → ColumnType → Result (FieldValue × ℕ)
decode_field bytes ColumnType.boolean = do
  ensure_len bytes 1
  ok (FieldValue.boolean (not (from_be_bytes (take 1 bytes) == 0x00)), 1)
decode_field bytes ColumnType.int32 = do
  ensure_len bytes 4
  ok (FieldValue.int32 (as_signed 31 (bit_xor (from_be_bytes (take 4 bytes)) 0x8000_0000)), 4)
decode_field bytes ColumnType.int64 = do
  ensure_len bytes 8
  ok (
    FieldValue.int64 (as_signed 63 (bit_xor (from_be_bytes (take 8 bytes)) 0x8000_0000_0000_0000)),
    8,
  )
decode_field bytes ColumnType.float = do
  ensure_len bytes 4
  ok (FieldValue.float (unflip_float 31 (from_be_bytes (take 4 bytes))), 4)
decode_field bytes ColumnType.double = do
  ensure_len bytes 8
  ok (FieldValue.double (unflip_float 63 (from_be_bytes (take 8 bytes))), 8)
decode_field bytes (ColumnType.fixed_len_byte_array n) = do
  ensure_len bytes (as_usize n)
  ok (FieldValue.bytes (take (as_usize n) bytes), as_usize n)
decode_field bytes ColumnType.byte_array = do
  (val, consumed) ← unescape_byte_array bytes
  ok (FieldValue.bytes val, consumed)

-- The loop of `decode_pk_fields` over the slice from `pos` on: the values, and the leftover bytes
unfoldable pub decode_pk_loop : Bytes → List ℕ → TableSchema → Result (List FieldValue × Bytes)
decode_pk_loop bytes [] schema = ok ([], bytes)
decode_pk_loop bytes (i ∷ is) schema = do
  t ← col_type_at schema i
  (val, consumed) ← decode_field bytes t
  (vals, leftover) ← decode_pk_loop (drop consumed bytes) is schema
  ok (val ∷ vals, leftover)

unfoldable pub decode_pk_fields : Bytes → TableSchema → Result (List FieldValue)
decode_pk_fields bytes schema = do
  (vals, leftover) ← decode_pk_loop bytes schema.primary_key schema
  guard (length leftover == 0) corruption
  ok vals

-- `match op_byte` of `decode`
abbrev pub check_op : ℕ → Result OpType
check_op b = elim (op_of_byte b) [ none ↦ err corruption | some o ↦ ok o ]

-- `decode` from the point where the key is split and the tag is read
unfoldable pub decode_parts : Bytes → Bytes → ℕ → TableSchema → Result InternalKey
decode_parts raw pk_bytes tag schema = do
  let inverted_seq = tag / 2 ^ 8
  guard (leb inverted_seq seqnum_max) corruption
  op ← check_op (bit_and tag 0xff)
  vals ← decode_pk_fields pk_bytes schema
  ok (record { encoded = raw; seq = seqnum_max - inverted_seq; op_type = op; pk_values = vals })

-- `InternalKey::decode`
unfoldable pub decode : Bytes → TableSchema → Result InternalKey
decode raw schema = do
  guard (leb 8 (length raw)) corruption
  let pk_bytes = take (length raw - 8) raw
  let tag_bytes = drop (length raw - 8) raw
  decode_parts raw pk_bytes (from_be_bytes tag_bytes) schema
