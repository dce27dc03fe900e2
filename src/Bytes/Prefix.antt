-- ===== src/Bytes/Prefix.antt =====
-- The order of byte strings is strict and total, and how it treats strings with one front.
use merutable.Bytes.{Bytes, cmp_bytes}
use merutable.Prelude.{
  ◌++◌, ◌≡◌, lt, ◌≢◌, gt, ◌∷◌, take, compare_refl, [], length, arith, Ordering-cases, refl, compare,
  inl, inr,
}

pub cmp_bytes-gt : (x y : Bytes) → cmp_bytes x y ≡ gt → cmp_bytes y x ≡ lt
unfolding cmp_bytes
cmp_bytes-gt [] [] h = cc
cmp_bytes-gt [] (b ∷ y) h = cc
cmp_bytes-gt (a ∷ x) [] h = refl
cmp_bytes-gt (a ∷ x) (b ∷ y) h = ground (arith, cmp_bytes-gt x y)

pub cmp_bytes-lt : (x y : Bytes) → cmp_bytes x y ≡ lt → cmp_bytes y x ≡ gt
unfolding cmp_bytes
cmp_bytes-lt [] [] h = cc
cmp_bytes-lt [] (b ∷ y) h = refl
cmp_bytes-lt (a ∷ x) [] h = cc
cmp_bytes-lt (a ∷ x) (b ∷ y) h = ground (arith, cmp_bytes-lt x y)

pub cmp_bytes_trans : (x y z : Bytes) → cmp_bytes x y ≡ lt → cmp_bytes y z ≡ lt → cmp_bytes x z ≡ lt
unfolding cmp_bytes
cmp_bytes_trans [] [] z h g = cc
cmp_bytes_trans [] (b ∷ y) [] h g = cc
cmp_bytes_trans [] (b ∷ y) (c ∷ z) h g = refl
cmp_bytes_trans (a ∷ x) [] z h g = cc
cmp_bytes_trans (a ∷ x) (b ∷ y) [] h g = cc
cmp_bytes_trans (a ∷ x) (b ∷ y) (c ∷ z) h g = ground (arith, cmp_bytes_trans x y z)

pub cmp_bytes-front : (u x y : Bytes) → cmp_bytes (u ++ x) (u ++ y) ≡ cmp_bytes x y
unfolding cmp_bytes
cmp_bytes-front [] x y = refl
cmp_bytes-front (a ∷ u) x y = rw (compare_refl a) (cmp_bytes-front u x y)

-- What is not below a string with the front `u`, and does not begin with it, is above them all.
pub cmp_bytes-beyond :
    (u k t x : Bytes)
    → cmp_bytes k (u ++ t) ≢ lt
    → take (length u) k ≢ u
    → cmp_bytes (u ++ x) k ≡ lt
unfolding cmp_bytes
cmp_bytes-beyond [] k t x h g = absurd (g refl)
cmp_bytes-beyond (a ∷ u) [] t x h g = absurd (h refl)
cmp_bytes-beyond (a ∷ u) (c ∷ k) t x h g = elim (Ordering-cases (compare a c)) [
  | inl l ↦ rw l
  | inr (inl e) ↦
      let same : a ≡ c = ground arith in
      rw e (cmp_bytes-beyond u k t x (λ l. h (ground arith)) (λ l. g (cc)))
  | inr (inr l) ↦ absurd (h (ground arith))
]
