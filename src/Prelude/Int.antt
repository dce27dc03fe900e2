-- ===== src/Prelude/Int.antt =====
-- Signed integers of k + 1 bits, and the casts between them and unsigned words.
use Prim.Native.Nat.{ℕ, suc, ◌+◌, ◌-◌, ◌%◌, ◌^◌, ◌<◌, compare, Ordering}
use Prim.Native.Nat.Ordering.{lt, gt}
use mathlib.Core.Path.{◌≡◌}
use native.Mathlib.Nat.{pow-suc}
use native.Mathlib.Omega.{arith}
use merutable.Prelude.Tests.{ltb, if◌then◌else◌}

-- `negsuc n` is -(n + 1).
pub data ℤ : Type 0 where
  pos : ℕ → ℤ
  negsuc : ℕ → ℤ

-- `Ord for i32` and `i64`
abbrev pub cmp_ℤ : ℤ → ℤ → Ordering
cmp_ℤ (pos a) (pos b) = compare a b
cmp_ℤ (pos a) (negsuc b) = gt
cmp_ℤ (negsuc a) (pos b) = lt
cmp_ℤ (negsuc a) (negsuc b) = compare b a

-- `v` is a signed integer of k + 1 bits.
abbrev pub IsSigned : ℕ → ℤ → Type 0
IsSigned k (pos n) = n < 2 ^ k
IsSigned k (negsuc n) = n < 2 ^ k

-- `v as uN` for N = k + 1: two's complement
abbrev pub as_unsigned : ℕ → ℤ → ℕ
as_unsigned k (pos n) = n % 2 ^ suc k
as_unsigned k (negsuc n) = 2 ^ suc k - 1 - n % 2 ^ suc k

-- `u as iN` for N = k + 1
abbrev pub as_signed : ℕ → ℕ → ℤ
as_signed k u = if ltb u (2 ^ k) then pos u else negsuc (2 ^ suc k - 1 - u)

-- `v as usize` of an i32 on a 64-bit target: the sign is extended
abbrev pub as_usize : ℤ → ℕ
as_usize v = as_unsigned 63 v

-- The integer moved up by half the range: what the key encodings store.
abbrev pub biased : ℕ → ℤ → ℕ
biased k (pos n) = n + 2 ^ k
biased k (negsuc n) = 2 ^ k - 1 - n

-- The biased form keeps the order.
pub compare-biased :
    (k : ℕ) (a b : ℤ) → IsSigned k a → IsSigned k b → compare (biased k a) (biased k b) ≡ cmp_ℤ a b
compare-biased k (pos a) (pos b) h g = ground arith
compare-biased k (pos a) (negsuc b) h g = ground arith
compare-biased k (negsuc a) (pos b) h g = ground arith
compare-biased k (negsuc a) (negsuc b) h g = ground arith

pub biased-lt : (k : ℕ) (a : ℤ) → IsSigned k a → biased k a < 2 ^ suc k
biased-lt k (pos a) h = omega (arith, pow-suc 2 k)
biased-lt k (negsuc a) h = omega (arith, pow-suc 2 k)
