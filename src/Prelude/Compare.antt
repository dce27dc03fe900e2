-- ===== src/Prelude/Compare.antt =====
-- `std::cmp::Ordering`: the comparison of pairs, and what `compare` says of numbers.
use Prim.Native.Nat.{ℕ, ◌<◌, compare}
use mathlib.Core.Path.{◌≡◌, refl}
use mathlib.Core.Logic.{◌⊎◌, inl, inr}
use native.Mathlib.Omega.{arith}
pub use Prim.Native.Nat.{Ordering}
pub use Prim.Native.Nat.Ordering.{lt, eq, gt}

-- `Ordering::then`
abbrev pub then_cmp : Ordering → Ordering → Ordering
then_cmp eq second = second
then_cmp lt second = lt
then_cmp gt second = gt

pub compare-lt : (a b : ℕ) → a < b → compare a b ≡ lt
compare-lt a b h = ground arith

pub compare-gt : (a b : ℕ) → b < a → compare a b ≡ gt
compare-gt a b h = ground arith

pub compare_refl : (a : ℕ) → compare a a ≡ eq
compare_refl a = ground arith

pub then_cmp_assoc : (a b c : Ordering) → then_cmp (then_cmp a b) c ≡ then_cmp a (then_cmp b c)
then_cmp_assoc lt b c = refl
then_cmp_assoc eq b c = refl
then_cmp_assoc gt b c = refl

pub Ordering-cases : (o : Ordering) → (o ≡ lt) ⊎ ((o ≡ eq) ⊎ (o ≡ gt))
Ordering-cases lt = inl refl
Ordering-cases eq = inr (inl refl)
Ordering-cases gt = inr (inr refl)
