-- ===== src/Parquet/Bloom/Probes.antt =====
-- The loops over the probes of a key (parquet/bloom.rs) stay within the line of the key, and a
-- probe finds every bit that was set.
use merutable.Bytes.{Bytes}
use merutable.Parquet.Bloom.{
  next_hash, bit_position, update_byte, read_byte, add_probes, check_probes,
}
use merutable.Prelude.{
  ℕ, zero, suc, Bool, true, false, [], ◌∷◌, ◌+◌, ◌/◌, ◌%◌, ◌^◌, ◌≤◌, ◌<◌, ◌≡◌, ok, length, ◌==◌,
  refl, ap, arith, Bool-cases, inl, inr,
}
use merutable.Prelude.Bits.{bit_or, bit_and, bit_and-mask}
use merutable.Prelude.Bits.Single.{bit, bit-or, bit-mask, and-mask_iff, bit-le}

-- Bit `p` of byte `i`, clear outside the list
abbrev pub bit_at : Bytes → ℕ → ℕ → ℕ
bit_at [] i p = 0
bit_at (b ∷ bs) zero p = bit p b
bit_at (b ∷ bs) (suc i) p = bit_at bs i p

-- Every bit that is set in the one list is set in the other.
abbrev pub Covers : Bytes → Bytes → Type 0
Covers old new = (i p : ℕ) → bit_at old i p ≤ bit_at new i p

pub Covers-trans : (a b c : Bytes) → Covers a b → Covers b c → Covers a c
Covers-trans a b c f g i p = omega (arith, f i p, g i p)

bit_position-lt : (h : ℕ) → bit_position h < 512
unfolding bit_position
bit_position-lt h = omega (arith, bit_and-mask 9 (h / 2 ^ 23))

-- Setting one bit
abbrev pub Sets : ℕ → ℕ → Bytes → Bytes → Type 0
Sets i p bs bs' = (length bs' ≡ length bs) × Covers bs bs' × (bit_at bs' i p ≡ 1)

update_byte-Sets :
    (p i : ℕ) (bs : Bytes)
    → i < length bs
    → (bs' : Bytes) × (update_byte (λ b. bit_or b (2 ^ p)) i bs ≡ ok bs') × Sets i p bs bs'
unfolding update_byte
update_byte-Sets p i [] h = absurd (omega arith)
update_byte-Sets p zero (b ∷ bs) h = (
  bit_or b (2 ^ p) ∷ bs,
  refl,
  (refl, covers, omega (arith, bit-or p b (2 ^ p), bit-mask p, bit-le p b)),
)
  where
    covers : Covers (b ∷ bs) (bit_or b (2 ^ p) ∷ bs)
    covers zero q = omega (arith, bit-or q b (2 ^ p))
    covers (suc j) q = omega arith
update_byte-Sets p (suc i) (b ∷ bs) h = further b i bs (update_byte-Sets p i bs (omega arith))
  where
    further :
        (b i : ℕ) (bs : Bytes)
        → ((bs' : Bytes) × (update_byte (λ b. bit_or b (2 ^ p)) i bs ≡ ok bs') × Sets i p bs bs')
        → (bs' : Bytes) × (update_byte (λ b. bit_or b (2 ^ p)) (suc i) (b ∷ bs) ≡ ok bs')
          × Sets (suc i) p (b ∷ bs) bs'
    further b i bs (bs', e, (l, c, s)) =
        (b ∷ bs', rw (e, update_byte) refl, (ap suc l, covers b bs bs' c, s))
      where
        covers : (b : ℕ) (bs bs' : Bytes) → Covers bs bs' → Covers (b ∷ bs) (b ∷ bs')
        covers b bs bs' c zero q = omega arith
        covers b bs bs' c (suc j) q = c j q

read_byte-bit :
    (p i : ℕ) (bs : Bytes)
    → i < length bs
    → (b : ℕ) × (read_byte bs i ≡ ok b) × (bit p b ≡ bit_at bs i p)
unfolding read_byte
read_byte-bit p i [] h = absurd (omega arith)
read_byte-bit p zero (b ∷ bs) h = (b, refl, refl)
read_byte-bit p (suc i) (b ∷ bs) h = read_byte-bit p i bs (omega arith)

-- The bits of all probes are set.
abbrev pub AllSet : ℕ → ℕ → ℕ → Bytes → Type 0
AllSet zero base h bs = Unit
AllSet (suc n) base h bs =
    (bit_at bs (base + bit_position h / 8) (bit_position h % 8) ≡ 1)
    × AllSet n base (next_hash h) bs

bit_at-le : (bs : Bytes) (i p : ℕ) → bit_at bs i p ≤ 1
bit_at-le [] i p = omega arith
bit_at-le (b ∷ bs) zero p = bit-le p b
bit_at-le (b ∷ bs) (suc i) p = bit_at-le bs i p

pub AllSet-mono :
    (n base h : ℕ) (bs bs' : Bytes) → Covers bs bs' → AllSet n base h bs → AllSet n base h bs'
AllSet-mono zero base h bs bs' c s = tt
AllSet-mono (suc n) base h bs bs' c s = (
  omega (
    arith,
    s.0,
    c (base + bit_position h / 8) (bit_position h % 8),
    bit_at-le bs' (base + bit_position h / 8) (bit_position h % 8),
  ),
  AllSet-mono n base (next_hash h) bs bs' c s.1,
)

pub add_probes-AllSet :
    (n base h : ℕ) (bs : Bytes)
    → base + 64 ≤ length bs
    → (bs' : Bytes) × (add_probes n base h bs ≡ ok bs')
      × (length bs' ≡ length bs)
      × Covers bs bs'
      × AllSet n base h bs'
unfolding add_probes
add_probes-AllSet zero base h bs l = (bs, refl, refl, λ i p. omega arith, tt)
add_probes-AllSet (suc n) base h bs l =
    let (mid, e, (len, c, s)) =
      update_byte-Sets (bit_position h % 8) (base + bit_position h / 8) bs
        (omega (arith, bit_position-lt h)) in
    let (bs', e', len', c', s') = add_probes-AllSet n base (next_hash h) mid (omega (arith, len)) in
    (
      bs',
      rw (e) e',
      omega (arith, len, len'),
      Covers-trans bs mid bs' c c',
      (
        omega (
          arith,
          s,
          c' (base + bit_position h / 8) (bit_position h % 8),
          bit_at-le bs' (base + bit_position h / 8) (bit_position h % 8),
        ),
        s',
      ),
    )

pub check_probes-AllSet :
    (n base h : ℕ) (bs : Bytes)
    → base + 64 ≤ length bs
    → AllSet n base h bs
    → check_probes n base h bs ≡ ok true
unfolding check_probes
check_probes-AllSet zero base h bs l s = refl
check_probes-AllSet (suc n) base h bs l s =
    let (b, e, t) =
      read_byte-bit (bit_position h % 8) (base + bit_position h / 8) bs
        (omega (arith, bit_position-lt h)) in
    let found = check_probes-AllSet n base (next_hash h) bs l s.1 in
    elim (Bool-cases (bit_and b (2 ^ (bit_position h % 8)) == 0)) [
      | inl z ↦
          absurd
            (omega (arith, s.0, t, (and-mask_iff (bit_position h % 8) b).0 (ground (arith, z))))
      | inr z ↦ rw (e, z) found
    ]

-- Within the line a probe gives an answer.
pub check_probes_total :
    (n base h : ℕ) (bs : Bytes)
    → base + 64 ≤ length bs
    → (found : Bool) × (check_probes n base h bs ≡ ok found)
unfolding check_probes
check_probes_total zero base h bs l = (true, refl)
check_probes_total (suc n) base h bs l =
    let (b, e, t) =
      read_byte-bit (bit_position h % 8) (base + bit_position h / 8) bs
        (omega (arith, bit_position-lt h)) in
    let (found, more) = check_probes_total n base (next_hash h) bs l in
    elim (Bool-cases (bit_and b (2 ^ (bit_position h % 8)) == 0)) [
      | inl z ↦ (false, rw (e, z) refl)
      | inr z ↦ (found, rw (e, z) more)
    ]
