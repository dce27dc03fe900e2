-- ===== src/Prelude/Bits.antt =====
-- `|`, `^` and `&` on binary digits as arithmetic, where one operand is a mask or a shifted field.
pub mod Single
pub use Prim.Native.Nat.{bit_or, bit_xor, bit_and}
use Prim.Native.Nat.{
  ℕ, zero, suc, ◌+◌, ◌-◌, ◌*◌, ◌/◌, ◌%◌, ◌^◌, ◌≤◌, ◌<◌, max, min, differ, digits, bit_or-bitwise,
  bit_xor-bitwise, bit_and-bitwise,
}
use mathlib.Core.Path.{◌≡◌, refl, ap}
use native.Mathlib.Nat.{pow-suc, one-le-pow}
use native.Mathlib.Omega.{arith}

module _ (rest : ℕ → ℕ) (digit : ℕ → ℕ → ℕ) where
  -- Any two counts of digits that cover `a` give one result.
  digits_enough : (k l a b : ℕ) → a ≤ k → a ≤ l → digits rest digit k a b ≡ digits rest digit l a b
  digits_enough zero l zero b h g = digits_none l b
    where
      digits_none : (m c : ℕ) → digits rest digit zero zero c ≡ digits rest digit m zero c
      digits_none zero c = refl
      digits_none (suc m) c = refl
  digits_enough zero l (suc a) b h g = absurd (omega arith)
  digits_enough (suc k) zero zero b h g = refl
  digits_enough (suc k) zero (suc a) b h g = absurd (omega arith)
  digits_enough (suc k) (suc l) zero b h g = refl
  digits_enough (suc k) (suc l) (suc a) b h g =
      ap (λ (t : ℕ). t * 2 + digit (suc a % 2) (b % 2))
        (digits_enough k l (suc a / 2) (b / 2) (omega arith) (omega arith))

  lowest_digit :
      (a b : ℕ)
      → digits rest digit (suc a) (suc a) b
        ≡ digits rest digit (suc a / 2) (suc a / 2) (b / 2) * 2 + digit (suc a % 2) (b % 2)
  lowest_digit a b =
      ap (λ (t : ℕ). t * 2 + digit (suc a % 2) (b % 2))
        (digits_enough a (suc a / 2) (suc a / 2) (b / 2) (omega arith) (omega arith))

pub or_digit : (a b : ℕ) → bit_or a b ≡ bit_or (a / 2) (b / 2) * 2 + max (a % 2) (b % 2)
or_digit zero b = omega (arith, bit_or-bitwise 0 b, bit_or-bitwise 0 (b / 2))
or_digit (suc a) b = omega (
  arith,
  bit_or-bitwise (suc a) b,
  bit_or-bitwise (suc a / 2) (b / 2),
  lowest_digit (λ y. y) max a b,
)

pub and_digit : (a b : ℕ) → bit_and a b ≡ bit_and (a / 2) (b / 2) * 2 + min (a % 2) (b % 2)
and_digit zero b = omega (arith, bit_and-bitwise 0 b, bit_and-bitwise 0 (b / 2))
and_digit (suc a) b = omega (
  arith,
  bit_and-bitwise (suc a) b,
  bit_and-bitwise (suc a / 2) (b / 2),
  lowest_digit (λ y. 0) min a b,
)

xor_digit : (a b : ℕ) → bit_xor a b ≡ bit_xor (a / 2) (b / 2) * 2 + differ (a % 2) (b % 2)
xor_digit zero b = omega (arith, bit_xor-bitwise 0 b, bit_xor-bitwise 0 (b / 2), zero_differs)
  where
    zero_differs : differ 0 (b % 2) ≡ b % 2
    zero_differs = refl
xor_digit (suc a) b = omega (
  arith,
  bit_xor-bitwise (suc a) b,
  bit_xor-bitwise (suc a / 2) (b / 2),
  lowest_digit (λ y. y) differ a b,
)

-- No number of digits to the left changes what `|` and `&` do with zero.
or_zero_below : (k a : ℕ) → a ≤ k → bit_or a 0 ≡ a
or_zero_below k zero h = refl
or_zero_below zero (suc a) h = absurd (omega arith)
or_zero_below (suc k) (suc a) h =
    omega (arith, or_digit (suc a) 0, or_zero_below k (suc a / 2) (omega arith))

differ_zero : (x : ℕ) → differ x 0 ≡ x
differ_zero zero = refl
differ_zero (suc x) = refl

xor_zero_below : (k a : ℕ) → a ≤ k → bit_xor a 0 ≡ a
xor_zero_below k zero h = refl
xor_zero_below zero (suc a) h = absurd (omega arith)
xor_zero_below (suc k) (suc a) h =
    omega (arith, xor_digit (suc a) 0, xor_zero_below k (suc a / 2) (omega arith), differ_zero _)

pub and_zero_below : (k a : ℕ) → a ≤ k → bit_and a 0 ≡ 0
and_zero_below k zero h = refl
and_zero_below zero (suc a) h = absurd (omega arith)
and_zero_below (suc k) (suc a) h =
    omega (arith, and_digit (suc a) 0, and_zero_below k (suc a / 2) (omega arith))

shift_suc : (q k : ℕ) → q * 2 ^ suc k ≡ 2 * (q * 2 ^ k)
shift_suc q k = omega (arith, ap (λ (t : ℕ). q * t) (pow-suc 2 k))

-- `(q << k) | r` is a sum where `r` fits in `k` bits.
pub bit_or-shifted : (k q r : ℕ) → r < 2 ^ k → bit_or (q * 2 ^ k) r ≡ q * 2 ^ k + r
bit_or-shifted zero q r h = ground (arith, or_zero_below q q (omega arith))
bit_or-shifted (suc k) q r h =
    ground
      (arith, or_digit (q * 2 ^ suc k) r, shift_suc q k, pow-suc 2 k, bit_or-shifted k q (r / 2))

-- `r | (q << k)`: the field on the right.
pub bit_or-onto : (k q r : ℕ) → r < 2 ^ k → bit_or r (q * 2 ^ k) ≡ r + q * 2 ^ k
bit_or-onto zero q r h = ground (arith, bit_or-bitwise 0 q)
bit_or-onto (suc k) q r h =
    ground (arith, or_digit r (q * 2 ^ suc k), shift_suc q k, pow-suc 2 k, bit_or-onto k q (r / 2))

-- `v ^ (1 << k)` on a word of k + 1 bits sets a clear top bit, and clears a set one.
pub bit_xor-clear : (k v : ℕ) → v < 2 ^ k → bit_xor v (2 ^ k) ≡ v + 2 ^ k
bit_xor-clear zero v h = ground (arith, bit_xor-bitwise 0 1)
bit_xor-clear (suc k) v h =
    ground
      (arith, xor_digit v (2 ^ suc k), pow-suc 2 k, differ_zero (v % 2), bit_xor-clear k (v / 2))

pub bit_xor-set : (k v : ℕ) → v < 2 ^ k → bit_xor (v + 2 ^ k) (2 ^ k) ≡ v
bit_xor-set zero v h = ground (arith, bit_xor-bitwise 1 1)
bit_xor-set (suc k) v h = ground (
  arith,
  xor_digit (v + 2 ^ suc k) (2 ^ suc k),
  pow-suc 2 k,
  differ_zero (v % 2),
  bit_xor-set k (v / 2),
)

and_field : (k q r : ℕ) → r < 2 ^ k → bit_and (q * 2 ^ k + r) (2 ^ k - 1) ≡ r
and_field zero q r h = ground (arith, and_zero_below (q * 1 + r) (q * 1 + r) (omega arith))
and_field (suc k) q r h = ground (
  arith,
  and_digit (q * 2 ^ suc k + r) (2 ^ suc k - 1),
  shift_suc q k,
  pow-suc 2 k,
  and_field k q (r / 2),
)

-- `v & (2^k - 1)`
pub bit_and-mask : (k v : ℕ) → bit_and v (2 ^ k - 1) ≡ v % 2 ^ k
bit_and-mask k v = ground (arith, one-le-pow k 2, and_field k (v / 2 ^ k) (v % 2 ^ k))

-- The top bit of a byte.
pub bit_and-top : (b : ℕ) → b < 256 → bit_and b 0x80 ≡ b / 128 * 128
bit_and-top b h = ground (
  arith,
  and_digit b 128,
  and_digit (b / 2) 64,
  and_digit (b / 4) 32,
  and_digit (b / 8) 16,
  and_digit (b / 16) 8,
  and_digit (b / 32) 4,
  and_digit (b / 64) 2,
  and_digit (b / 128) 1,
  and_zero_below (b / 256) (b / 256),
)
