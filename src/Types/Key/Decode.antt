-- ===== src/Types/Key/Decode.antt =====
-- `decode` inverts `encode`: field by field, then the primary key, then the whole key.
pub mod Words
use merutable.Types.Key.Decode.Words.{unescape-escape, unflip-flip_ne}
pub mod Fields
use merutable.Types.Key.Decode.Fields.{IsExact, decode_field-encode_field, decode_field-float_ne}
use native.Mathlib.Decide.{dec_lt}
use native.Mathlib.Nat.{pow-suc}
use merutable.Prelude.{
  ◌/◌, le→leb, true, false, [], ◌∷◌, ◌++◌, List, ℕ, ◌≡◌, refl, ap, sym, ◌∙◌, arith, length, take,
  drop, ok, ◌>>=◌, zero, suc, ◌^◌, ◌<◌, ◌-◌, take-append_length, ◌≢◌, length-append, ◌≤◌, ◌+◌, ◌*◌,
  All, append-nil, append_assoc, drop-append_length, Result,
}
use merutable.Prelude.Int.{
  ℤ, pos, negsuc, IsSigned, as_signed, as_unsigned, as_usize, biased, biased-lt,
}
use merutable.Types.Value.{FieldValue}
use merutable.Types.Schema.{ColumnType, TableSchema}
use merutable.Types.Sequence.{delete, put, SeqNum, OpType, seqnum_max, op_byte}
use merutable.Types.Key.{
  InternalKey, escape_byte_array, unescape_byte_array, flip_float, unflip_float, encode_field,
  decode_field, ensure_len, order_preserving_f32, order_preserving_f64, encode_pk_loop, encode,
  decode_pk_loop, decode_pk_fields, decode, decode_parts, check_op, user_key_bytes, encode_user_key,
}
use merutable.Types.Key.Fields.{
  IsValue, low_quotient, high_quotient, bit_xor-as_unsigned, float_rank, flip_float-biased,
  float_rank-IsSigned,
}
use merutable.Types.Key.Tag.{tag_of, tag_of-lt}
use merutable.Types.Key.Order.{encode-eq-ok, encode_pk_loop-cons}
use merutable.Bytes.{Bytes, to_be_bytes, from_be_bytes}
use merutable.Bytes.Words.{length-to_be_bytes, from_be_bytes-to_be_bytes}
use merutable.Prelude.Bits.{bit_xor, bit_and, bit_and-mask, bit_xor-clear, bit_xor-set}

encode_pk_loop-nil :
    (is : List ℕ) (s : TableSchema) (b : Bytes) → encode_pk_loop [] is s ≡ ok b → b ≡ []
unfolding encode_pk_loop
encode_pk_loop-nil is s b h = cc

decode_pk_loop-encode_pk_loop :
    (vs : List FieldValue) (is : List ℕ) (s : TableSchema) (b rest : Bytes)
    → All IsValue vs
    → All IsExact vs
    → length vs ≡ length is
    → encode_pk_loop vs is s ≡ ok b
    → decode_pk_loop (b ++ rest) is s ≡ ok (vs, rest)
unfolding decode_pk_loop
decode_pk_loop-encode_pk_loop [] [] s b rest h x l e = rw (encode_pk_loop-nil [] s b e)
decode_pk_loop-encode_pk_loop [] (i ∷ is) s b rest h x l e = absurd (omega arith)
decode_pk_loop-encode_pk_loop (v ∷ vs) [] s b rest h x l e = absurd (omega arith)
decode_pk_loop-encode_pk_loop (v ∷ vs) (i ∷ is) s b rest h x l e =
    let (t, y, z, ht, hy, hz, eb) = encode_pk_loop-cons v vs i is s b e in
    rw (eb, append_assoc y z rest, ht)
      (rw
        (
          decode_field-encode_field t v y (z ++ rest) h.0 x.0 hy,
          drop-append_length (length y) y (z ++ rest) refl,
        )
        (rw (decode_pk_loop-encode_pk_loop vs is s z rest h.1 x.1 (omega arith) hz)))

pub decode_pk_fields-encode :
    (vs : List FieldValue) (s : TableSchema) (b : Bytes)
    → All IsValue vs
    → All IsExact vs
    → length vs ≡ length s.primary_key
    → encode_pk_loop vs s.primary_key s ≡ ok b
    → decode_pk_fields b s ≡ ok vs
unfolding decode_pk_fields
decode_pk_fields-encode vs s b h x l e =
    rw (← append-nil b) (rw (decode_pk_loop-encode_pk_loop vs s.primary_key s b [] h x l e))

tag_fields :
    (seq : SeqNum) (op : OpType)
    → seq ≤ seqnum_max
    → (tag_of seq op / 2 ^ 8 ≡ seqnum_max - seq) × (bit_and (tag_of seq op) 0xff ≡ op_byte op)
tag_fields seq delete h = omega (arith, bit_and-mask 8 (tag_of seq delete))
tag_fields seq put h = omega (arith, bit_and-mask 8 (tag_of seq put))

-- A key is taken apart into its user key and its tag.
split_key :
    (user tag : Bytes)
    → length tag ≡ 8
    → (take (length (user ++ tag) - 8) (user ++ tag) ≡ user)
      × (drop (length (user ++ tag) - 8) (user ++ tag) ≡ tag)
      × (8 ≤ length (user ++ tag))
split_key user tag h =
    let l : length (user ++ tag) - 8 ≡ length user = omega (arith, length-append user tag) in
    (
      take-append_length _ user tag l,
      drop-append_length _ user tag l,
      omega (arith, length-append user tag),
    )

-- `user_key_bytes` of a key that `encode` built is what `encode_user_key` writes.
pub user_key_bytes-encode :
    (pk : List FieldValue) (seq : SeqNum) (op : OpType) (s : TableSchema) (k : InternalKey)
    → encode pk seq op s ≡ ok k
    → encode_user_key pk s ≡ ok (user_key_bytes k)
unfolding encode_user_key user_key_bytes
user_key_bytes-encode pk seq op s k e =
    let a = encode-eq-ok pk seq op s k e in
    let (front, back, long) =
      split_key a.user (to_be_bytes 8 (tag_of seq op)) (length-to_be_bytes 8 _) in
    rw (a.split, front) a.user_ok

pub check_op-op_byte : (op : OpType) → check_op (op_byte op) ≡ ok op
check_op-op_byte delete = refl
check_op-op_byte put = refl

decode_parts-tag_of :
    (raw user : Bytes) (seq : SeqNum) (op : OpType) (s : TableSchema) (pk : List FieldValue)
    → seq ≤ seqnum_max
    → decode_pk_fields user s ≡ ok pk
    → decode_parts raw user (tag_of seq op) s
      ≡ ok (record { encoded = raw; seq = seq; op_type = op; pk_values = pk })
unfolding decode_parts
decode_parts-tag_of raw user seq op s pk h e =
    rw ((tag_fields seq op h).0, le→leb (seqnum_max - seq) seqnum_max (omega arith))
      (rw ((tag_fields seq op h).1, check_op-op_byte op, e) (ap built (omega arith)))
  where
    built : ℕ → Result InternalKey
    built n = ok (record { encoded = raw; seq = n; op_type = op; pk_values = pk })

-- `decode` returns the key that `encode` built, where no primary key column holds a float and every
-- value is one that its type can hold.
pub decode-encode :
    (s : TableSchema) (pk : List FieldValue) (seq : SeqNum) (op : OpType) (k : InternalKey)
    → All IsValue pk
    → All IsExact pk
    → encode pk seq op s ≡ ok k
    → decode k.encoded s ≡ ok k
unfolding decode
decode-encode s pk seq op k h x e =
    let a = encode-eq-ok pk seq op s k e in
    let tag : Bytes = to_be_bytes 8 (tag_of seq op) in
    let (front, back, long) = split_key a.user tag (length-to_be_bytes 8 _) in
    let fields = decode_pk_fields-encode pk s a.user h x a.arity a.fields in
    let parts = decode_parts-tag_of (a.user ++ tag) a.user seq op s pk a.bound fields in
    ap (λ r. decode r s) a.split
    ∙ rw
        (
          le→leb _ _ long,
          front,
          back,
          from_be_bytes-to_be_bytes 8 (tag_of seq op) (tag_of-lt seq op),
        )
        parts
    ∙ ap ok (sym a.whole)
