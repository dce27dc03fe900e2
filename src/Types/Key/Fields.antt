-- ===== src/Types/Key/Fields.antt =====
-- The encodings of single fields: each compares as its value does, whatever follows it.
use native.Mathlib.Nat.{pow-suc}
use native.Mathlib.Decide.{dec_lt}
use merutable.Prelude.{
  ℕ, zero, suc, ◌-◌, ◌*◌, ◌/◌, ◌%◌, ◌^◌, ◌≤◌, ◌<◌, ◌≡◌, refl, ap, ◌∙◌, arith, compare, Ordering, eq,
  then_cmp, [], ◌∷◌, ◌++◌, All, ◌==◌, if◌then◌else◌, ok, length,
}
use merutable.Prelude.Int.{
  ℤ, pos, negsuc, cmp_ℤ, IsSigned, as_unsigned, biased, compare-biased, biased-lt,
}
use merutable.Prelude.Bits.{bit_xor, bit_xor-clear, bit_xor-set}
use merutable.Bytes.{Bytes, IsByte, to_be_bytes, cmp_bytes}
use merutable.Bytes.Words.{length-to_be_bytes}
use merutable.Bytes.Order.{cmp_bytes-append, cmp_bytes-to_be_bytes}
use merutable.Types.Value.{FieldValue}
use merutable.Types.Schema.{ColumnType}
use merutable.Types.Key.{
  escape_byte_array, flip_float, encode_field, order_preserving_f32, order_preserving_f64,
}

-- The integer that a sign-magnitude bit pattern of k + 1 bits stands for. IEEE-754 orders the
-- non-NaN floats so, but for the two zeros, which it takes for equal; here -0 lies just below +0.
abbrev pub float_rank : ℕ → ℕ → ℤ
float_rank k bits = if bits / 2 ^ k == 0 then pos bits else negsuc (bits - 2 ^ k)

-- A value that its Rust type can hold.
abbrev pub IsValue : FieldValue → Type 0
IsValue (FieldValue.boolean b) = Unit
IsValue (FieldValue.int32 v) = IsSigned 31 v
IsValue (FieldValue.int64 v) = IsSigned 63 v
IsValue (FieldValue.float v) = v < 2 ^ 32
IsValue (FieldValue.double v) = v < 2 ^ 64
IsValue (FieldValue.bytes b) = All IsByte b

-- The order of values of one column: numeric, and byte by byte.
abbrev pub cmp_value : FieldValue → FieldValue → Ordering
cmp_value (FieldValue.boolean a) (FieldValue.boolean b) =
    compare (if a then 1 else 0) (if b then 1 else 0)
cmp_value (FieldValue.int32 a) (FieldValue.int32 b) = cmp_ℤ a b
cmp_value (FieldValue.int64 a) (FieldValue.int64 b) = cmp_ℤ a b
cmp_value (FieldValue.float a) (FieldValue.float b) = cmp_ℤ (float_rank 31 a) (float_rank 31 b)
cmp_value (FieldValue.double a) (FieldValue.double b) = cmp_ℤ (float_rank 63 a) (float_rank 63 b)
cmp_value (FieldValue.bytes a) (FieldValue.bytes b) = cmp_bytes a b
cmp_value _ _ = eq

-- `(v as uN) ^ (1 << (N - 1))` is the biased integer.
pub bit_xor-as_unsigned :
    (k : ℕ) (v : ℤ) → IsSigned k v → bit_xor (as_unsigned k v) (2 ^ k) ≡ biased k v
bit_xor-as_unsigned k (pos n) h = ground (arith, pow-suc 2 k, bit_xor-clear k n h, small)
  where
    small : n % 2 ^ suc k ≡ n
    small = grind (arith, pow-suc 2 k)
bit_xor-as_unsigned k (negsuc n) h =
    ground (arith, pow-suc 2 k, bit_xor-set k (2 ^ k - 1 - n), small)
  where
    small : n % 2 ^ suc k ≡ n
    small = grind (arith, pow-suc 2 k)

pub low_quotient : (p x : ℕ) → x < p → x / p ≡ 0
low_quotient p x h = grind arith

pub high_quotient : (p x : ℕ) → p ≤ x → x < 2 * p → x / p ≡ 1
high_quotient p x h g = grind arith

-- `flip_float` is the biased rank.
pub flip_float-biased :
    (k bits : ℕ) → bits < 2 ^ suc k → flip_float k bits ≡ biased k (float_rank k bits)
unfolding flip_float
flip_float-biased k bits h = elim (dec_lt bits (2 ^ k)) [
  | yes low ↦ rw (low_quotient (2 ^ k) bits low) (bit_xor-clear k bits low)
  | no high ↦
      rw (high_quotient (2 ^ k) bits (omega arith) (omega (arith, pow-suc 2 k)))
        (omega (arith, pow-suc 2 k))
]

pub float_rank-IsSigned : (k bits : ℕ) → bits < 2 ^ suc k → IsSigned k (float_rank k bits)
float_rank-IsSigned k bits h = elim (dec_lt bits (2 ^ k)) [
  | yes low ↦ rw (low_quotient (2 ^ k) bits low) low
  | no high ↦
      rw (high_quotient (2 ^ k) bits (omega arith) (omega (arith, pow-suc 2 k)))
        (omega (arith, pow-suc 2 k))
]

-- Two biased integers, written big-endian in front of anything.
biased_words :
    (n k : ℕ) (a b : ℤ) (r s : Bytes)
    → 256 ^ n ≡ 2 ^ suc k
    → IsSigned k a
    → IsSigned k b
    → cmp_bytes (to_be_bytes n (biased k a) ++ r) (to_be_bytes n (biased k b) ++ s)
      ≡ then_cmp (cmp_ℤ a b) (cmp_bytes r s)
biased_words n k a b r s e h g =
    cmp_bytes-append (to_be_bytes n (biased k a)) (to_be_bytes n (biased k b)) r s
      (omega (arith, length-to_be_bytes n (biased k a), length-to_be_bytes n (biased k b)))
    ∙ ap (λ c. then_cmp c (cmp_bytes r s))
        (cmp_bytes-to_be_bytes n (biased k a) (biased k b) (omega (arith, e, biased-lt k a h))
            (omega (arith, e, biased-lt k b g))
          ∙ compare-biased k a b h g)

-- Escaped strings compare as the strings do. A terminator is less than any escaped byte, so what
-- follows a shorter string is never read against the rest of a longer one.
cmp_bytes-escape :
    (x y r s : Bytes)
    → cmp_bytes (escape_byte_array x ++ r) (escape_byte_array y ++ s)
      ≡ then_cmp (cmp_bytes x y) (cmp_bytes r s)
unfolding escape_byte_array cmp_bytes
cmp_bytes-escape [] [] r s = refl
cmp_bytes-escape [] (zero ∷ y) r s = refl
cmp_bytes-escape [] (suc b ∷ y) r s = ground arith
cmp_bytes-escape (zero ∷ x) [] r s = refl
cmp_bytes-escape (suc a ∷ x) [] r s = ground arith
cmp_bytes-escape (a ∷ x) (b ∷ y) r s = ground (arith, cmp_bytes-escape x y r s)

one_byte :
    (a b : ℕ) (r s : Bytes) → cmp_bytes (a ∷ r) (b ∷ s) ≡ then_cmp (compare a b) (cmp_bytes r s)
unfolding cmp_bytes
one_byte a b r s = refl

flipped_words :
    (n k a b : ℕ) (r s : Bytes)
    → 256 ^ n ≡ 2 ^ suc k
    → a < 2 ^ suc k
    → b < 2 ^ suc k
    → cmp_bytes (to_be_bytes n (flip_float k a) ++ r) (to_be_bytes n (flip_float k b) ++ s)
      ≡ then_cmp (cmp_ℤ (float_rank k a) (float_rank k b)) (cmp_bytes r s)
flipped_words n k a b r s e h g =
    rw (flip_float-biased k a h, flip_float-biased k b g)
      (biased_words n k (float_rank k a) (float_rank k b) r s e (float_rank-IsSigned k a h)
        (float_rank-IsSigned k b g))

-- What two values of one column encode to compares as the values do, in front of anything.
pub cmp_bytes-encode_field :
    (t : ColumnType) (v w : FieldValue) (b c r s : Bytes)
    → IsValue v
    → IsValue w
    → encode_field v t ≡ ok b
    → encode_field w t ≡ ok c
    → cmp_bytes (b ++ r) (c ++ s) ≡ then_cmp (cmp_value v w) (cmp_bytes r s)
unfolding encode_field order_preserving_f32 order_preserving_f64
cmp_bytes-encode_field ColumnType.boolean (FieldValue.boolean x) (FieldValue.boolean y) b c r s h g
      e f =
    let p : (if x then 1 else 0) ∷ [] ≡ b = cc in
    let q : (if y then 1 else 0) ∷ [] ≡ c = cc in
    rw (← p, ← q) (one_byte (if x then 1 else 0) (if y then 1 else 0) r s)
cmp_bytes-encode_field ColumnType.int32 (FieldValue.int32 x) (FieldValue.int32 y) b c r s h g e f =
    let p : to_be_bytes 4 (bit_xor (as_unsigned 31 x) 0x8000_0000) ≡ b = cc in
    let q : to_be_bytes 4 (bit_xor (as_unsigned 31 y) 0x8000_0000) ≡ c = cc in
    rw (← p, ← q)
      (rw (bit_xor-as_unsigned 31 x h, bit_xor-as_unsigned 31 y g)
        (biased_words 4 31 x y r s refl h g))
cmp_bytes-encode_field ColumnType.int64 (FieldValue.int64 x) (FieldValue.int64 y) b c r s h g e f =
    let p : to_be_bytes 8 (bit_xor (as_unsigned 63 x) 0x8000_0000_0000_0000) ≡ b = cc in
    let q : to_be_bytes 8 (bit_xor (as_unsigned 63 y) 0x8000_0000_0000_0000) ≡ c = cc in
    rw (← p, ← q)
      (rw (bit_xor-as_unsigned 63 x h, bit_xor-as_unsigned 63 y g)
        (biased_words 8 63 x y r s refl h g))
cmp_bytes-encode_field ColumnType.float (FieldValue.float x) (FieldValue.float y) b c r s h g e f =
    let p : to_be_bytes 4 (flip_float 31 x) ≡ b = ground arith in
    let q : to_be_bytes 4 (flip_float 31 y) ≡ c = ground arith in
    rw (← p, ← q) (flipped_words 4 31 x y r s refl h g)
cmp_bytes-encode_field ColumnType.double (FieldValue.double x) (FieldValue.double y) b c r s h g e
      f =
    let p : to_be_bytes 8 (flip_float 63 x) ≡ b = ground arith in
    let q : to_be_bytes 8 (flip_float 63 y) ≡ c = ground arith in
    rw (← p, ← q) (flipped_words 8 63 x y r s refl h g)
cmp_bytes-encode_field (ColumnType.fixed_len_byte_array n) (FieldValue.bytes x) (FieldValue.bytes y)
      b c r s h g e f =
    let p : x ≡ b = ground arith in
    let q : y ≡ c = ground arith in
    let l : length x ≡ length y = ground arith in rw (← p, ← q) (cmp_bytes-append x y r s l)
cmp_bytes-encode_field ColumnType.byte_array (FieldValue.bytes x) (FieldValue.bytes y) b c r s h g e
      f =
    let p : escape_byte_array x ≡ b = cc in
    let q : escape_byte_array y ≡ c = cc in rw (← p, ← q) (cmp_bytes-escape x y r s)
cmp_bytes-encode_field _ _ _ b c r s h g e f = cc
