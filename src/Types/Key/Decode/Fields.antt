-- ===== src/Types/Key/Decode/Fields.antt =====
-- `decode_field` reads back a value that is no float (types/key.rs).
use merutable.Prelude.{
  true, false, [], ◌∷◌, ◌++◌, ℕ, ◌≡◌, refl, arith, length, take, ok, suc, ◌^◌, ◌<◌,
  take-append_length, ◌≢◌, length-append,
}
use merutable.Prelude.Int.{ℤ, IsSigned, as_signed, as_unsigned, as_usize, biased, biased-lt}
use merutable.Types.Value.{FieldValue}
use merutable.Types.Schema.{ColumnType}
use merutable.Types.Key.{
  escape_byte_array, flip_float, unflip_float, encode_field, decode_field, ensure_len,
  order_preserving_f32, order_preserving_f64,
}
use merutable.Types.Key.Fields.{IsValue, bit_xor-as_unsigned}
use merutable.Bytes.{Bytes, to_be_bytes, from_be_bytes}
use merutable.Bytes.Words.{length-to_be_bytes}
use merutable.Prelude.Bits.{bit_xor}
use merutable.Types.Key.Decode.Words.{
  unescape-escape, unflip-flip_ne, leading_word, flip_float-lt, as_signed-biased,
}

-- A column value that is no float.
abbrev pub IsExact : FieldValue → Type 0
IsExact (FieldValue.float v) = ⊥
IsExact (FieldValue.double v) = ⊥
IsExact _ = Unit

signed_word :
    (n k : ℕ) (v : ℤ) (rest : Bytes)
    → 256 ^ n ≡ 2 ^ suc k
    → IsSigned k v
    → as_signed k (
        bit_xor
          (from_be_bytes (take n (to_be_bytes n (bit_xor (as_unsigned k v) (2 ^ k)) ++ rest)))
          (2 ^ k))
      ≡ v
signed_word n k v rest e h = rw (bit_xor-as_unsigned k v h) (
    rw (leading_word n (biased k v) rest (omega (arith, e, biased-lt k v h)))
      (as_signed-biased k v h))

-- A slice that begins with what is needed passes `ensure_len`.
ensure_len-append : (x rest : Bytes) (n : ℕ) → length x ≡ n → ensure_len (x ++ rest) n ≡ ok tt
unfolding ensure_len
ensure_len-append x rest n h = ground (arith, length-append x rest)

-- `decode_field` reads back an exact value from the head of any slice, and consumes its encoding.
pub decode_field-encode_field :
    (t : ColumnType) (v : FieldValue) (b rest : Bytes)
    → IsValue v
    → IsExact v
    → encode_field v t ≡ ok b
    → decode_field (b ++ rest) t ≡ ok (v, length b)
unfolding encode_field decode_field
decode_field-encode_field ColumnType.boolean (FieldValue.boolean true) b rest h x e =
    let p : 1 ∷ [] ≡ b = cc in
    rw (← p) (rw (ensure_len-append (1 ∷ []) rest 1 refl) (unfold from_be_bytes in refl))
decode_field-encode_field ColumnType.boolean (FieldValue.boolean false) b rest h x e =
    let p : 0 ∷ [] ≡ b = cc in
    rw (← p) (rw (ensure_len-append (0 ∷ []) rest 1 refl) (unfold from_be_bytes in refl))
decode_field-encode_field ColumnType.int32 (FieldValue.int32 v) b rest h x e =
    let w : ℕ = bit_xor (as_unsigned 31 v) 0x8000_0000 in
    let p : to_be_bytes 4 w ≡ b = cc in
    rw (← p) (
      rw (ensure_len-append (to_be_bytes 4 w) rest 4 (length-to_be_bytes 4 w))
        (rw (signed_word 4 31 v rest refl h, length-to_be_bytes 4 w)))
decode_field-encode_field ColumnType.int64 (FieldValue.int64 v) b rest h x e =
    let w : ℕ = bit_xor (as_unsigned 63 v) 0x8000_0000_0000_0000 in
    let p : to_be_bytes 8 w ≡ b = cc in
    rw (← p) (
      rw (ensure_len-append (to_be_bytes 8 w) rest 8 (length-to_be_bytes 8 w))
        (rw (signed_word 8 63 v rest refl h, length-to_be_bytes 8 w)))
decode_field-encode_field (ColumnType.fixed_len_byte_array n) (FieldValue.bytes y) b rest h x e =
    let p : y ≡ b = ground arith in
    let l : length y ≡ as_usize n = ground arith in
    rw (← p) (
      rw (ensure_len-append y rest (as_usize n) l)
        (rw (← l) (rw (take-append_length (length y) y rest refl))))
decode_field-encode_field ColumnType.byte_array (FieldValue.bytes y) b rest h x e =
    let p : escape_byte_array y ≡ b = cc in rw (← p) (rw (unescape-escape y rest))
decode_field-encode_field ColumnType.float (FieldValue.float v) b rest h x e = absurd x
decode_field-encode_field ColumnType.double (FieldValue.double v) b rest h x e = absurd x
decode_field-encode_field _ _ b rest h x e = cc

decode_field-float :
    (v : ℕ) (b rest : Bytes)
    → v < 2 ^ 32
    → encode_field (FieldValue.float v) ColumnType.float ≡ ok b
    → decode_field (b ++ rest) ColumnType.float
      ≡ ok (FieldValue.float (unflip_float 31 (flip_float 31 v)), 4)
unfolding encode_field decode_field order_preserving_f32
decode_field-float v b rest h e =
    let p : to_be_bytes 4 (flip_float 31 v) ≡ b = ground arith in
    rw (← p) (
      rw (ensure_len-append (to_be_bytes 4 (flip_float 31 v)) rest 4 (length-to_be_bytes 4 _))
        (rw (leading_word 4 (flip_float 31 v) rest (flip_float-lt 31 v h))))

decode_field-double :
    (v : ℕ) (b rest : Bytes)
    → v < 2 ^ 64
    → encode_field (FieldValue.double v) ColumnType.double ≡ ok b
    → decode_field (b ++ rest) ColumnType.double
      ≡ ok (FieldValue.double (unflip_float 63 (flip_float 63 v)), 8)
unfolding encode_field decode_field order_preserving_f64
decode_field-double v b rest h e =
    let p : to_be_bytes 8 (flip_float 63 v) ≡ b = ground arith in
    rw (← p) (
      rw (ensure_len-append (to_be_bytes 8 (flip_float 63 v)) rest 8 (length-to_be_bytes 8 _))
        (rw (leading_word 8 (flip_float 63 v) rest (flip_float-lt 63 v h))))

-- A float or double that a column of its type encodes decodes to another bit pattern, whatever
-- follows its bytes: the two branches of the decoder are those of the other sign.
pub decode_field-float_ne :
    (t : ColumnType) (v : FieldValue) (b rest : Bytes)
    → IsValue v
    → ¬ IsExact v
    → encode_field v t ≡ ok b
    → (w : FieldValue) × (n : ℕ) × (decode_field (b ++ rest) t ≡ ok (w, n)) × (w ≢ v)
decode_field-float_ne ColumnType.float (FieldValue.float v) b rest h x e = (
  FieldValue.float (unflip_float 31 (flip_float 31 v)),
  4,
  decode_field-float v b rest h e,
  λ q. unflip-flip_ne 30 v h (cc),
)
decode_field-float_ne ColumnType.double (FieldValue.double v) b rest h x e = (
  FieldValue.double (unflip_float 63 (flip_float 63 v)),
  8,
  decode_field-double v b rest h e,
  λ q. unflip-flip_ne 62 v h (cc),
)
decode_field-float_ne t (FieldValue.boolean v) b rest h x e = absurd (x tt)
decode_field-float_ne t (FieldValue.int32 v) b rest h x e = absurd (x tt)
decode_field-float_ne t (FieldValue.int64 v) b rest h x e = absurd (x tt)
decode_field-float_ne t (FieldValue.bytes v) b rest h x e = absurd (x tt)
decode_field-float_ne _ _ b rest h x e = absurd (unfold encode_field in cc)
