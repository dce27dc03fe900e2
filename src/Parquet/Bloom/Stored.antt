-- ===== src/Parquet/Bloom/Stored.antt =====
-- The stored form of the filter (parquet/bloom.rs).
use merutable.Bytes.{Bytes, IsByte, to_le_bytes, from_le_bytes}
use merutable.Bytes.Words.{length-to_le_bytes, from_le_bytes-to_le_bytes}
use merutable.Parquet.Bloom.{FastLocalBloom, may_contain, probe_scalar, to_bytes, from_bytes}
use merutable.Parquet.Bloom.Membership.{IsTable, line_start-within}
use merutable.Parquet.Bloom.Probes.{check_probes_total}
use merutable.Prelude.{
  ℕ, zero, suc, Bool, true, false, [], ◌∷◌, ◌++◌, ◌+◌, ◌-◌, ◌*◌, ◌/◌, ◌%◌, ◌^◌, ◌≤◌, ◌<◌, ◌≡◌, ok,
  length, take, drop, All, ◌==◌, le→leb, refl, arith, length-append, take-append_length,
  drop-append_length, length-take, length-drop,
}

-- A filter with at least one probe, whose table is whole lines of 64 bytes, at least one of them and
-- fewer than 2^32, is read back as it was written.
pub from_bytes-to_bytes :
    (f : FastLocalBloom) → IsTable f.bits → 0 < f.num_probes → from_bytes (to_bytes f) ≡ ok f
unfolding from_bytes to_bytes
from_bytes-to_bytes f t p =
    rw
      (
        le→leb 4 (length (head ++ f.bits)) (omega (arith, len)),
        no_zero f.num_probes p,
        take-append_length 4 head f.bits (omega (arith, length-to_le_bytes 4 count)),
        from_le_bytes-to_le_bytes 4 count (omega arith),
        no_zero count (omega (arith, t.whole, t.some_line, t.few)),
        same (length (head ++ f.bits) - 4) (count * 64)
            (omega (arith, len, t.whole, t.some_line, t.few)),
        drop-append_length 4 head f.bits (omega (arith, length-to_le_bytes 4 count)),
      )
      refl
  where
    count : ℕ
    count = length f.bits / 64 % 2 ^ 32

    head : Bytes
    head = to_le_bytes 4 count

    len : length (head ++ f.bits) ≡ 4 + length f.bits
    len = omega (arith, length-append {0} head f.bits, length-to_le_bytes 4 count)

    no_zero : (n : ℕ) → 0 < n → (n == 0) ≡ false
    no_zero n h = ground arith

    same : (a b : ℕ) → a ≡ b → (a == b) ≡ true
    same a b h = ground arith

-- The filter that is read has whole lines and a probe, and comes from its bytes alone.
from_bytes_parts :
    (num_probes : ℕ) (raw : Bytes) (f : FastLocalBloom)
    → from_bytes (num_probes ∷ raw) ≡ ok f
    → (4 ≤ length raw)
      × (0 < num_probes)
      × (0 < from_le_bytes (take 4 raw))
      × (length raw - 4 ≡ from_le_bytes (take 4 raw) * 64)
      × (f ≡ record { num_probes = num_probes; bits = drop 4 raw })
unfolding from_bytes
from_bytes_parts num_probes raw f e = ground (arith, e)

four_bytes-lt : (xs : Bytes) → All IsByte xs → length xs ≡ 4 → from_le_bytes xs < 2 ^ 32
unfolding from_le_bytes
four_bytes-lt (a ∷ b ∷ c ∷ d ∷ []) h l = omega (arith, h)
four_bytes-lt [] h l = absurd (omega arith)
four_bytes-lt (a ∷ []) h l = absurd (omega arith)
four_bytes-lt (a ∷ b ∷ []) h l = absurd (omega arith)
four_bytes-lt (a ∷ b ∷ c ∷ []) h l = absurd (omega arith)
four_bytes-lt (a ∷ b ∷ c ∷ d ∷ e ∷ r) h l = absurd (omega arith)

All-take : (n : ℕ) (xs : Bytes) → All IsByte xs → All IsByte (take n xs)
All-take zero xs h = tt
All-take (suc n) [] h = tt
All-take (suc n) (x ∷ xs) h = (h.0, All-take n xs h.1)

from_bytes-IsTable :
    (raw : Bytes) (f : FastLocalBloom)
    → All IsByte raw
    → from_bytes raw ≡ ok f
    → IsTable f.bits × (0 < f.num_probes)
from_bytes-IsTable [] f h e = absurd (no e)
  where
    no : from_bytes [] ≡ ok f → ⊥
    no e = unfold from_bytes in cc
from_bytes-IsTable (p ∷ raw) f h e =
    let (a, b, c, d, same) = from_bytes_parts p raw f e in
    (
      record {
        lines = from_le_bytes (take 4 raw);
        some_line = c;
        few =
            four_bytes-lt (take 4 raw) (All-take 4 raw h.1)
              (omega (arith, a, length-take {0} 4 raw));
        whole = rw same (omega (arith, d, length-drop {0} 4 raw));
      },
      rw same b,
    )

-- Whatever bytes `from_bytes` accepts, at least one probe is made of each key, and none has an index
-- out of bounds.
pub may_contain-from_bytes :
    (xxh3_64 : Bytes → ℕ) (choose_num_probes : ℕ → ℕ) (raw : Bytes) (f : FastLocalBloom)
    (key : Bytes)
    → xxh3_64 key < 2 ^ 64
    → All IsByte raw
    → from_bytes raw ≡ ok f
    → (0 < f.num_probes)
      × ((found : Bool) × (may_contain xxh3_64 choose_num_probes f key ≡ ok found))
unfolding may_contain probe_scalar
may_contain-from_bytes xxh3_64 choose_num_probes raw f key small h e =
    let (t, p) = from_bytes-IsTable raw f h e in
    let (base, s, l) = line_start-within f.bits (xxh3_64 key / 2 ^ 32) t (omega (arith, small)) in
    let (found, c) = check_probes_total f.num_probes base (xxh3_64 key % 2 ^ 32) f.bits l in
    (p, (found, rw s c))
