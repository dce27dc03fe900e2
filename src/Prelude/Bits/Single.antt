-- ===== src/Prelude/Bits/Single.antt =====
-- Single bits of a number, and what `|` and `&` with one bit do to them.
use native.Mathlib.Nat.{pow-suc}
use Prim.Native.Nat.{ℕ, zero, suc, ◌/◌, ◌%◌, ◌^◌, ◌≤◌, max, min}
use mathlib.Core.Path.{◌≡◌, refl, ap}
use native.Mathlib.Omega.{arith}
use merutable.Prelude.Bits.{bit_or, bit_and, or_digit, and_digit, and_zero_below}

-- Bit `p` of a number
unfoldable pub bit : ℕ → ℕ → ℕ
bit zero x = x % 2
bit (suc p) x = bit p (x / 2)

pub bit-le : (p x : ℕ) → bit p x ≤ 1
unfolding bit
bit-le zero x = omega arith
bit-le (suc p) x = bit-le p (x / 2)

pub bit-zero : (p : ℕ) → bit p 0 ≡ 0
unfolding bit
bit-zero zero = refl
bit-zero (suc p) = bit-zero p

pub bit-or : (p a b : ℕ) → bit p (bit_or a b) ≡ max (bit p a) (bit p b)
unfolding bit
bit-or zero a b = omega (arith, or_digit a b)
bit-or (suc p) a b = rw (half) (bit-or p (a / 2) (b / 2))
  where
    half : bit_or a b / 2 ≡ bit_or (a / 2) (b / 2)
    half = omega (arith, or_digit a b)

pub bit-and : (p a b : ℕ) → bit p (bit_and a b) ≡ min (bit p a) (bit p b)
unfolding bit
bit-and zero a b = omega (arith, and_digit a b)
bit-and (suc p) a b = rw (half) (bit-and p (a / 2) (b / 2))
  where
    half : bit_and a b / 2 ≡ bit_and (a / 2) (b / 2)
    half = omega (arith, and_digit a b)

pub bit-mask : (p : ℕ) → bit p (2 ^ p) ≡ 1
unfolding bit
bit-mask zero = refl
bit-mask (suc p) = rw (half) (bit-mask p)
  where
    half : 2 ^ suc p / 2 ≡ 2 ^ p
    half = omega (arith, pow-suc 2 p)

and-mask_zero : (p a : ℕ) → bit p a ≡ 0 → bit_and a (2 ^ p) ≡ 0
unfolding bit
and-mask_zero zero a h = omega (arith, and_digit a 1, and_zero_below (a / 2) (a / 2) (omega arith))
and-mask_zero (suc p) a h =
    omega (arith, and_digit a (2 ^ suc p), pow-suc 2 p, and-mask_zero p (a / 2) h, masked)
  where
    masked : bit_and (a / 2) (2 ^ suc p / 2) ≡ bit_and (a / 2) (2 ^ p)
    masked = rw (half) refl
      where
        half : 2 ^ suc p / 2 ≡ 2 ^ p
        half = omega (arith, pow-suc 2 p)

-- `a & (1 << p)` is zero where the bit is clear, and not where it is set.
pub and-mask_iff :
    (p a : ℕ) → (bit_and a (2 ^ p) ≡ 0 → bit p a ≡ 0) × (bit p a ≡ 0 → bit_and a (2 ^ p) ≡ 0)
and-mask_iff p a = (clear, and-mask_zero p a)
  where
    clear : bit_and a (2 ^ p) ≡ 0 → bit p a ≡ 0
    clear h = omega (arith, bit-and p a (2 ^ p), bit-mask p, bit-le p a, bit-zero p, ap (bit p) h)
