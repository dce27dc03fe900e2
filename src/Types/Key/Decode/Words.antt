-- ===== src/Types/Key/Decode/Words.antt =====
-- The parts of an encoded field that are read back: escaped bytes, signed words and floats (types/key.rs).
use native.Mathlib.Decide.{dec_lt}
use native.Mathlib.Nat.{pow-suc}
use merutable.Prelude.{
  [], ◌∷◌, ◌++◌, ℕ, ◌≡◌, refl, ap, sym, ◌∙◌, arith, length, take, ok, ◌>>=◌, zero, suc, ◌^◌, ◌<◌,
  ◌-◌, take-append_length, ◌≢◌, ◌≤◌, ◌+◌, ◌*◌,
}
use merutable.Prelude.Int.{ℤ, pos, negsuc, IsSigned, as_signed, biased, biased-lt}
use merutable.Types.Key.{escape_byte_array, unescape_byte_array, flip_float, unflip_float}
use merutable.Types.Key.Fields.{
  low_quotient, high_quotient, float_rank, flip_float-biased, float_rank-IsSigned,
}
use merutable.Bytes.{Bytes, to_be_bytes, from_be_bytes}
use merutable.Bytes.Words.{length-to_be_bytes, from_be_bytes-to_be_bytes}
use merutable.Prelude.Bits.{bit_xor, bit_xor-clear, bit_xor-set}

escape-suc : (b : ℕ) (x : Bytes) → escape_byte_array (suc b ∷ x) ≡ suc b ∷ escape_byte_array x
unfolding escape_byte_array
escape-suc b x = ground arith

escape-zero : (x : Bytes) → escape_byte_array (zero ∷ x) ≡ 0x00 ∷ 0xff ∷ escape_byte_array x
unfolding escape_byte_array
escape-zero x = refl

escape-nil : escape_byte_array [] ≡ 0x00 ∷ 0x00 ∷ []
unfolding escape_byte_array
escape-nil = refl

-- `unescape_byte_array` reads back what was escaped, and consumes it with its terminator.
pub unescape-escape :
    (x rest : Bytes)
    → unescape_byte_array (escape_byte_array x ++ rest) ≡ ok (x, length (escape_byte_array x))
unfolding unescape_byte_array
unescape-escape [] rest = rw escape-nil
unescape-escape (zero ∷ x) rest = rw (escape-zero x) (
    ap (λ r. r >>= λ p. ok (0x00 ∷ p.0, p.1 + 2)) (unescape-escape x rest)
    ∙ ap (λ n. ok (zero ∷ x, n)) (omega arith))
unescape-escape (suc b ∷ x) rest = rw (escape-suc b x) (
    ap (λ r. r >>= λ p. ok (suc b ∷ p.0, p.1 + 1)) (unescape-escape x rest)
    ∙ ap (λ n. ok (suc b ∷ x, n)) (omega arith))

-- `(u ^ (1 << (N - 1))) as iN` undoes the bias.
pub as_signed-biased :
    (k : ℕ) (v : ℤ) → IsSigned k v → as_signed k (bit_xor (biased k v) (2 ^ k)) ≡ v
as_signed-biased k (pos n) h = ground (arith, bit_xor-set k n)
as_signed-biased k (negsuc n) h = ground (arith, pow-suc 2 k, bit_xor-clear k (2 ^ k - 1 - n))

-- What `decode_field` makes of an encoded float: each branch undoes the other sign's encoding.
unflip-flip_low :
    (k bits : ℕ) → bits < 2 ^ k → unflip_float k (flip_float k bits) + bits + 1 ≡ 2 ^ k
unfolding flip_float unflip_float
unflip-flip_low k bits low = rw (low_quotient (2 ^ k) bits low) (
    rw (bit_xor-clear k bits low) (
      rw (high_quotient (2 ^ k) (bits + 2 ^ k) (omega arith) (omega arith))
        (omega (arith, pow-suc 2 k))))

unflip-flip_high :
    (k bits : ℕ)
    → 2 ^ k ≤ bits
    → bits < 2 ^ suc k
    → unflip_float k (flip_float k bits) + bits + 1 ≡ 3 * 2 ^ k
unfolding flip_float unflip_float
unflip-flip_high k bits high h = rw (high_quotient (2 ^ k) bits high (omega (arith, pow-suc 2 k))) (
    rw (low_quotient (2 ^ k) (2 ^ suc k - 1 - bits) (omega (arith, pow-suc 2 k))) (
      rw (bit_xor-clear k (2 ^ suc k - 1 - bits) (omega (arith, pow-suc 2 k)))
        (omega (arith, pow-suc 2 k))))

-- So no pattern of two bits or more comes back: its sum with what comes back is odd.
pub unflip-flip_ne :
    (k bits : ℕ) → bits < 2 ^ suc (suc k) → unflip_float (suc k) (flip_float (suc k) bits) ≢ bits
unflip-flip_ne k bits h e = elim (dec_lt bits (2 ^ suc k)) [
  | yes low ↦ absurd (omega (arith, e, pow-suc 2 k, unflip-flip_low (suc k) bits low))
  | no high ↦ absurd (omega (arith, e, pow-suc 2 k, unflip-flip_high (suc k) bits (omega arith) h))
]

-- A word at the head of a slice.
pub leading_word :
    (n v : ℕ) (rest : Bytes) → v < 256 ^ n → from_be_bytes (take n (to_be_bytes n v ++ rest)) ≡ v
leading_word n v rest h =
    rw (take-append_length n (to_be_bytes n v) rest (sym (length-to_be_bytes n v)))
      (from_be_bytes-to_be_bytes n v h)

pub flip_float-lt : (k v : ℕ) → v < 2 ^ suc k → flip_float k v < 2 ^ suc k
flip_float-lt k v h =
    rw (flip_float-biased k v h) (biased-lt k (float_rank k v) (float_rank-IsSigned k v h))
