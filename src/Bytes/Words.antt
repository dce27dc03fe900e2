-- ===== src/Bytes/Words.antt =====
-- Fixed-width integers and their bytes: lengths and round trips.
use native.Mathlib.Nat.{one-le-pow, pow-suc}
use merutable.Prelude.{
  ℕ, zero, suc, ◌+◌, ◌*◌, ◌/◌, ◌%◌, ◌^◌, ◌<◌, ◌≡◌, refl, ap, ◌∙◌, arith, length, All,
}
use merutable.Bytes.{IsByte, to_be_bytes, from_be_onto, from_be_bytes, to_le_bytes, from_le_bytes}

pub length-to_be_bytes : (n v : ℕ) → length (to_be_bytes n v) ≡ n
unfolding to_be_bytes
length-to_be_bytes zero v = refl
length-to_be_bytes (suc n) v = ap suc (length-to_be_bytes n (v % 256 ^ n))

pub length-to_le_bytes : (n v : ℕ) → length (to_le_bytes n v) ≡ n
unfolding to_le_bytes
length-to_le_bytes zero v = refl
length-to_le_bytes (suc n) v = ap suc (length-to_le_bytes n (v / 256))

pub to_be_bytes-IsByte : (n v : ℕ) → All IsByte (to_be_bytes n v)
unfolding to_be_bytes
to_be_bytes-IsByte zero v = tt
to_be_bytes-IsByte (suc n) v = (omega arith, to_be_bytes-IsByte n (v % 256 ^ n))

pub to_le_bytes-IsByte : (n v : ℕ) → All IsByte (to_le_bytes n v)
unfolding to_le_bytes
to_le_bytes-IsByte zero v = tt
to_le_bytes-IsByte (suc n) v = (omega arith, to_le_bytes-IsByte n (v / 256))

-- The leading byte of a number below 256^(n+1), and the rest.
pub leading_byte :
    (n v : ℕ)
    → v < 256 ^ suc n
    → (v / 256 ^ n < 256) × (v % 256 ^ n < 256 ^ n) × (v ≡ v / 256 ^ n * 256 ^ n + v % 256 ^ n)
leading_byte n v h = grind (arith, one-le-pow n 256, pow-suc 256 n)

place_leading :
    (acc t p r v q : ℕ) → v ≡ t * p + r → q ≡ p * 256 → (acc * 256 + t) * p + r ≡ acc * q + v
place_leading acc t p r v q e g = rw g (omega arith)

from_be_onto-to_be_bytes :
    (n v acc : ℕ) → v < 256 ^ n → from_be_onto acc (to_be_bytes n v) ≡ acc * 256 ^ n + v
unfolding to_be_bytes from_be_onto
from_be_onto-to_be_bytes zero v acc h = omega arith
from_be_onto-to_be_bytes (suc n) v acc h =
    let (top, low, split) = leading_byte n v h in
    from_be_onto-to_be_bytes n (v % 256 ^ n) (acc * 256 + v / 256 ^ n % 256) low
    ∙ ground (
      arith,
      top,
      place_leading acc (v / 256 ^ n) (256 ^ n) (v % 256 ^ n) v (256 ^ suc n) split (pow-suc 256 n),
    )

pub from_be_bytes-to_be_bytes : (n v : ℕ) → v < 256 ^ n → from_be_bytes (to_be_bytes n v) ≡ v
unfolding from_be_bytes
from_be_bytes-to_be_bytes n v h = omega (arith, from_be_onto-to_be_bytes n v 0 h)

pub from_le_bytes-to_le_bytes : (n v : ℕ) → v < 256 ^ n → from_le_bytes (to_le_bytes n v) ≡ v
unfolding to_le_bytes from_le_bytes
from_le_bytes-to_le_bytes zero v h = omega arith
from_le_bytes-to_le_bytes (suc n) v h =
    omega
      (arith, pow-suc 256 n, from_le_bytes-to_le_bytes n (v / 256) (omega (arith, pow-suc 256 n)))
