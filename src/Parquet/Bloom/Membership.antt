-- ===== src/Parquet/Bloom/Membership.antt =====
-- What the filter promises (parquet/bloom.rs): no key that was added is ever missed.
use native.Mathlib.Nat.{mul-lt-mul_of_pos_right}
use merutable.Bytes.{Bytes}
use merutable.Parquet.Bloom.{
  FastLocalBloom, fast_range32, line_start, add_inner, probe_scalar, new, add, may_contain,
}
use merutable.Parquet.Bloom.Probes.{
  Covers, Covers-trans, AllSet, AllSet-mono, add_probes-AllSet, check_probes-AllSet,
}
use merutable.Prelude.{
  ℕ, true, List, [], ◌∷◌, ◌++◌, ◌+◌, ◌*◌, ◌/◌, ◌%◌, ◌^◌, max, ◌≤◌, ◌<◌, ◌≡◌, Result, ok, ◌>>=◌,
  length, length-replicate, le→leb, refl, arith, ◌∙◌,
}

-- Whole lines, at least one, and as many as a u32 counts
pub record IsTable (bits : Bytes) : Type 0 where
  pub lines : ℕ
  pub some_line : 0 < lines
  pub few : lines < 2 ^ 32
  pub whole : length bits ≡ lines * 64

-- The index of a bucket is in range.
pub fast_range32-lt : (hash n : ℕ) → hash < 2 ^ 32 → 0 < n → n < 2 ^ 32 → fast_range32 hash n < n
unfolding fast_range32
fast_range32-lt hash n h p q =
    let product : hash * n < 2 ^ 32 * n = mul-lt-mul_of_pos_right h p in ground (arith, product)

pub line_start-within :
    (bs : Bytes) (h1 : ℕ)
    → IsTable bs
    → h1 < 2 ^ 32
    → (base : ℕ) × (line_start bs h1 ≡ ok base) × (base + 64 ≤ length bs)
unfolding line_start
line_start-within bs h1 t h =
    let count : length bs / 64 % 2 ^ 32 ≡ t.lines = omega (arith, t.whole, t.few) in
    let below = fast_range32-lt h1 t.lines h t.some_line t.few in
    let bound : fast_range32 h1 (length bs / 64 % 2 ^ 32) < t.lines = rw count below in
    (
      fast_range32 h1 (length bs / 64 % 2 ^ 32) * 64,
      (let fits =
            le→leb ((fast_range32 h1 (length bs / 64 % 2 ^ 32) + 1) * 64) (length bs)
              (omega (arith, bound, t.whole)) in
          rw fits refl),
      omega (arith, bound, t.whole),
    )

-- The line of a key depends on the length of the table only.
line_start-length :
    (bs bs' : Bytes) (h1 : ℕ) → length bs' ≡ length bs → line_start bs' h1 ≡ line_start bs h1
unfolding line_start
line_start-length bs bs' h1 e = rw e refl

IsTable-length : (bs bs' : Bytes) → length bs' ≡ length bs → IsTable bs → IsTable bs'
IsTable-length bs bs' e t = record {
  lines = t.lines;
  some_line = t.some_line;
  few = t.few;
  whole = omega (arith, e, t.whole);
}

module _ (xxh3_64 : Bytes → ℕ) (choose_num_probes : ℕ → ℕ)
    (hash_lt : (k : Bytes) → xxh3_64 k < 2 ^ 64) where
  -- The bits of a key are all set.
  abbrev Found : FastLocalBloom → Bytes → Type 0
  Found f key =
      (base : ℕ) × (line_start f.bits (xxh3_64 key / 2 ^ 32) ≡ ok base)
      × (base + 64 ≤ length f.bits)
      × AllSet f.num_probes base (xxh3_64 key % 2 ^ 32) f.bits

  may_contain-Found :
      (f : FastLocalBloom) (key : Bytes)
      → Found f key
      → may_contain xxh3_64 choose_num_probes f key ≡ ok true
  unfolding may_contain probe_scalar
  may_contain-Found f key (base, e, l, s) =
      rw e (check_probes-AllSet f.num_probes base (xxh3_64 key % 2 ^ 32) f.bits l s)

  -- A later table: as long, and with at least the bits
  abbrev Later : FastLocalBloom → FastLocalBloom → Type 0
  Later f g = (g.num_probes ≡ f.num_probes) × (length g.bits ≡ length f.bits) × Covers f.bits g.bits

  Found-Later : (f g : FastLocalBloom) (key : Bytes) → Later f g → Found f key → Found g key
  Found-Later f g key (n, l, c) (base, e, b, s) = (
    base,
    line_start-length f.bits g.bits (xxh3_64 key / 2 ^ 32) l ∙ e,
    omega (arith, b, l),
    rw n (AllSet-mono f.num_probes base (xxh3_64 key % 2 ^ 32) f.bits g.bits c s),
  )

  add-Found :
      (f : FastLocalBloom) (key : Bytes)
      → IsTable f.bits
      → (g : FastLocalBloom) × (add xxh3_64 choose_num_probes f key ≡ ok g)
        × Later f g
        × IsTable g.bits
        × Found g key
  unfolding add add_inner
  add-Found f key t =
      let (base, e, l) =
        line_start-within f.bits (xxh3_64 key / 2 ^ 32) t (omega (arith, hash_lt key)) in
      let (bits, a, len, c, s) =
        add_probes-AllSet f.num_probes base (xxh3_64 key % 2 ^ 32) f.bits l in
      (
        record f { bits = bits },
        rw (e, a) refl,
        (refl, len, c),
        IsTable-length f.bits bits len t,
        (
          base,
          line_start-length f.bits bits (xxh3_64 key / 2 ^ 32) len ∙ e,
          omega (arith, l, len),
          s,
        ),
      )

  -- `add` for each key in turn
  abbrev pub add_all : FastLocalBloom → List Bytes → Result FastLocalBloom
  add_all f [] = ok f
  add_all f (k ∷ ks) = do g ← add xxh3_64 choose_num_probes f k; add_all g ks

  add_all-Later :
      (ks : List Bytes) (f : FastLocalBloom)
      → IsTable f.bits
      → (g : FastLocalBloom) × (add_all f ks ≡ ok g) × Later f g × IsTable g.bits
  add_all-Later [] f t = (f, refl, (refl, refl, λ i p. omega arith), t)
  add_all-Later (k ∷ ks) f t =
      let (m, e, (n, l, c), t', s) = add-Found f k t in
      let (g, e', (n', l', c'), t'') = add_all-Later ks m t' in
      (g, rw e e', (n' ∙ n, l' ∙ l, Covers-trans f.bits m.bits g.bits c c'), t'')

  add_all-Found :
      (before after : List Bytes) (key : Bytes) (f : FastLocalBloom)
      → IsTable f.bits
      → (g : FastLocalBloom) × (add_all f (before ++ key ∷ after) ≡ ok g) × Found g key
  add_all-Found [] after key f t =
      let (m, e, l, t', s) = add-Found f key t in
      let (g, e', l', t'') = add_all-Later after m t' in (g, rw e e', Found-Later m g key l' s)
  add_all-Found (k ∷ before) after key f t =
      let (m, e, l, t', s) = add-Found f k t in
      let (g, e', s') = add_all-Found before after key m t' in (g, rw e e', s')

  new-IsTable :
      (num_keys bits_per_key : ℕ)
      → num_keys * bits_per_key < 2 ^ 40
      → IsTable (new xxh3_64 choose_num_probes num_keys bits_per_key).bits
  unfolding new
  new-IsTable num_keys bits_per_key h = record {
    lines = (max (num_keys * bits_per_key % 2 ^ 64) 512 + 511) / 512;
    some_line = omega arith;
    few = omega (arith, h);
    whole = length-replicate _ 0;
  }

  -- No false negatives: for a filter of `new` of fewer than 2^40 bits, any list of keys can be added
  -- with no index out of bounds, and afterwards `may_contain` is true of each of them.
  pub may_contain-add_all :
      (num_keys bits_per_key : ℕ) (before after : List Bytes) (key : Bytes)
      → num_keys * bits_per_key < 2 ^ 40
      → (g : FastLocalBloom) × (add_all
            (new xxh3_64 choose_num_probes num_keys bits_per_key)
            (before ++ key ∷ after)
          ≡ ok g)
        × (may_contain xxh3_64 choose_num_probes g key ≡ ok true)
  may_contain-add_all num_keys bits_per_key before after key h =
      let (g, e, s) =
        add_all-Found before after key (new xxh3_64 choose_num_probes num_keys bits_per_key)
          (new-IsTable num_keys bits_per_key h) in
      (g, e, may_contain-Found g key s)
