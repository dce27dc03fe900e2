-- ===== src/Bytes.antt =====
-- Byte strings: `to_be_bytes` and its kin of the standard library, and the order of `[u8]`.
pub mod Words
pub mod Order
pub mod Prefix
use merutable.Prelude.{
  ℕ, zero, suc, ◌+◌, ◌*◌, ◌/◌, ◌%◌, ◌^◌, ◌<◌, compare, Ordering, lt, eq, gt, then_cmp, List, [],
  ◌∷◌, ◌++◌, Bool, true, false,
}

-- A byte string is a list of numbers below 256.
abbrev pub Bytes : Type 0
Bytes = List ℕ

abbrev pub IsByte : ℕ → Type 0
IsByte b = b < 256

-- `uN::to_be_bytes`, for N = 8 * n
unfoldable pub to_be_bytes : ℕ → ℕ → Bytes
to_be_bytes zero v = []
to_be_bytes (suc n) v = (v / 256 ^ n % 256) ∷ to_be_bytes n (v % 256 ^ n)

-- `uN::from_be_bytes`, reading from the left onto `acc`
unfoldable pub from_be_onto : ℕ → Bytes → ℕ
from_be_onto acc [] = acc
from_be_onto acc (b ∷ bs) = from_be_onto (acc * 256 + b) bs

unfoldable pub from_be_bytes : Bytes → ℕ
unfolding from_be_onto
from_be_bytes bs = from_be_onto 0 bs

-- `uN::to_le_bytes`
unfoldable pub to_le_bytes : ℕ → ℕ → Bytes
to_le_bytes zero v = []
to_le_bytes (suc n) v = (v % 256) ∷ to_le_bytes n (v / 256)

-- `uN::from_le_bytes`
unfoldable pub from_le_bytes : Bytes → ℕ
from_le_bytes [] = 0
from_le_bytes (b ∷ bs) = b + 256 * from_le_bytes bs

-- `Ord for [u8]`: byte by byte, and a proper prefix is less.
unfoldable pub cmp_bytes : Bytes → Bytes → Ordering
cmp_bytes [] [] = eq
cmp_bytes [] (b ∷ bs) = lt
cmp_bytes (a ∷ as_) [] = gt
cmp_bytes (a ∷ as_) (b ∷ bs) = then_cmp (compare a b) (cmp_bytes as_ bs)

-- `PartialEq for [u8]`
unfoldable pub eq_bytes : Bytes → Bytes → Bool
unfolding cmp_bytes
eq_bytes x y = elim (cmp_bytes x y) [ eq ↦ true | _ ↦ false ]
