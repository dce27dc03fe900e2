-- ===== src/Bytes/Order.antt =====
-- The order of byte strings on concatenations and on big-endian words.
use merutable.Prelude.{
  ℕ, zero, suc, ◌+◌, ◌*◌, ◌/◌, ◌%◌, ◌^◌, ◌≤◌, ◌<◌, ◌≡◌, refl, ap, sym, ◌∙◌, ◌↔◌, arith, compare, eq,
  then_cmp, then_cmp_assoc, [], ◌∷◌, ◌++◌, length, true,
}
use merutable.Bytes.{Bytes, to_be_bytes, cmp_bytes, eq_bytes}
use merutable.Bytes.Words.{leading_byte}

pub cmp_bytes_refl : (x : Bytes) → cmp_bytes x x ≡ eq
unfolding cmp_bytes
cmp_bytes_refl [] = refl
cmp_bytes_refl (b ∷ bs) = ground (arith, cmp_bytes_refl bs)

pub eq_of_cmp_bytes : (x y : Bytes) → cmp_bytes x y ≡ eq → x ≡ y
unfolding cmp_bytes
eq_of_cmp_bytes [] [] h = refl
eq_of_cmp_bytes [] (b ∷ bs) h = cc
eq_of_cmp_bytes (a ∷ s) [] h = cc
eq_of_cmp_bytes (a ∷ s) (b ∷ t) h = ground (arith, eq_of_cmp_bytes s t)

-- Strings of one length are compared before what follows them.
pub cmp_bytes-append :
    (x y r s : Bytes)
    → length x ≡ length y
    → cmp_bytes (x ++ r) (y ++ s) ≡ then_cmp (cmp_bytes x y) (cmp_bytes r s)
unfolding cmp_bytes
cmp_bytes-append [] [] r s h = refl
cmp_bytes-append [] (b ∷ y) r s h = absurd (omega arith)
cmp_bytes-append (a ∷ x) [] r s h = absurd (omega arith)
cmp_bytes-append (a ∷ x) (b ∷ y) r s h =
    ap (then_cmp (compare a b)) (cmp_bytes-append x y r s (omega arith))
    ∙ sym (then_cmp_assoc (compare a b) (cmp_bytes x y) (cmp_bytes r s))

lt_of_high : (p a b c d : ℕ) → c < p → a < b → a * p + c < b * p + d
lt_of_high p a b c d h l = omega (arith, mul_mono p (a + 1) b (omega arith))
  where
    mul_mono : (q x y : ℕ) → x ≤ y → x * q ≤ y * q
    mul_mono q x y k = grind arith

-- Two numbers compare by their quotients first and their remainders then.
pub compare_split :
    (p a b c d : ℕ)
    → c < p
    → d < p
    → compare (a * p + c) (b * p + d) ≡ then_cmp (compare a b) (compare c d)
compare_split p a b c d h g = ground (arith, lt_of_high p a b c d h, lt_of_high p b a d c g)

-- Big-endian words of one width compare as the numbers do.
pub cmp_bytes-to_be_bytes :
    (n a b : ℕ)
    → a < 256 ^ n
    → b < 256 ^ n
    → cmp_bytes (to_be_bytes n a) (to_be_bytes n b) ≡ compare a b
unfolding to_be_bytes cmp_bytes
cmp_bytes-to_be_bytes zero a b h g = ground arith
cmp_bytes-to_be_bytes (suc n) a b h g =
    let (ta, la, sa) = leading_byte n a h in
    let (tb, lb, sb) = leading_byte n b g in
    ground (
      arith,
      ta,
      tb,
      sa,
      sb,
      cmp_bytes-to_be_bytes n (a % 256 ^ n) (b % 256 ^ n) la lb,
      compare_split (256 ^ n) (a / 256 ^ n) (b / 256 ^ n) (a % 256 ^ n) (b % 256 ^ n) la lb,
    )

pub eq_bytes_iff : (x y : Bytes) → (eq_bytes x y ≡ true) ↔ (x ≡ y)
unfolding eq_bytes
eq_bytes_iff x y =
    (λ h. eq_of_cmp_bytes x y (ground arith), λ e. rw e (ground (arith, cmp_bytes_refl y)))
