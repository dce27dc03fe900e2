-- ===== src/Parquet/KvIndex/Ceil.antt =====
-- The number of restarts before an entry (parquet/kv_index.rs).
use native.Mathlib.Nat.{div-add-mod, add-mul-div_left, div-eq_of_lt, mod-lt}
use merutable.Parquet.KvIndex.{is_restart}
use merutable.Prelude.{
  ℕ, true, false, ◌+◌, ◌-◌, ◌*◌, ◌/◌, ◌%◌, ◌^◌, ◌<◌, ◌≡◌, ◌==◌, if◌then◌else◌, arith, ap,
  Bool-cases, inl, inr, ◌∙◌, sym, ◌⊎◌,
}

-- The restarts among the entries before `i`
abbrev pub restarts_before : ℕ → ℕ → ℕ
restarts_before ri i = (i + ri - 1) / ri

-- A quotient from a division with remainder
quotient : (n ri q r : ℕ) → r < ri → n ≡ r + ri * q → n / ri ≡ q
quotient n ri q r h e =
    ap (λ (t : ℕ). t / ri) e
    ∙ add-mul-div_left r q (omega (arith, h))
    ∙ omega (arith, div-eq_of_lt h)

restarts_before-at : (ri i : ℕ) → 0 < ri → i % ri ≡ 0 → restarts_before ri i ≡ i / ri
restarts_before-at ri i p h =
    quotient _ ri (i / ri) (ri - 1) (omega arith) (omega (arith, div-add-mod i ri, h))

one_more_row : (ri q : ℕ) → ri * (q + 1) ≡ ri * q + ri
one_more_row ri q = grind arith

-- The restart at entry `i` stands behind as many as its number.
pub restart-index :
    (ri i : ℕ)
    → 0 < ri
    → i < 2 ^ 32
    → is_restart ri i ≡ true
    → restarts_before ri i ≡ i % 2 ^ 32 / ri
unfolding is_restart
restart-index ri i p h t = rw small (restarts_before-at ri i p divided)
  where
    small : i % 2 ^ 32 ≡ i
    small = omega (arith, h)

    divided : i % ri ≡ 0
    divided = ground (arith, rw small at t)

pub restarts_before-suc :
    (ri i : ℕ)
    → 0 < ri
    → i < 2 ^ 32
    → restarts_before ri (i + 1) ≡ restarts_before ri i + (if is_restart ri i then 1 else 0)
unfolding is_restart
restarts_before-suc ri i p h = rw small (split (Bool-cases (i % ri == 0)))
  where
    small : i % 2 ^ 32 ≡ i
    small = omega (arith, h)

    split :
        ((i % ri == 0) ≡ true) ⊎ ((i % ri == 0) ≡ false)
        → restarts_before ri (i + 1) ≡ restarts_before ri i + (if i % ri == 0 then 1 else 0)
    split (inl t) =
        let none_over : i % ri ≡ 0 = ground arith in
        rw (t, restarts_before-at ri i p none_over)
          (quotient _ ri (i / ri + 1) 0 p
            (omega (arith, div-add-mod i ri, none_over, one_more_row ri (i / ri))))
    split (inr u) =
        let over : 0 < i % ri = ground arith in
        let above : i % ri < ri = mod-lt i p in
        rw u (
          quotient _ ri (i / ri + 1) (i % ri) above
            (omega (arith, div-add-mod i ri, one_more_row ri (i / ri), over))
          ∙ sym (
              omega (
                arith,
                quotient (i + ri - 1) ri (i / ri + 1) (i % ri - 1) (omega (arith, above))
                    (omega (arith, div-add-mod i ri, one_more_row ri (i / ri), over)),
              )))
