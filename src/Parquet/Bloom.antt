-- ===== src/Parquet/Bloom.antt =====
-- parquet/bloom.rs: the blocked Bloom filter. The hash of a key (`xxh3_64`) and the number of probes
-- for a number of bits (`choose_num_probes`, on f64) are parameters; the vectorised probes call the
-- scalar one.
pub mod Probes
pub mod Stored
pub mod Membership
mod Examples
use merutable.Bytes.{Bytes, to_le_bytes, from_le_bytes}
use merutable.Prelude.{
  ℕ, zero, suc, Bool, true, false, List, [], ◌∷◌, Option, none, some, ◌+◌, ◌-◌, ◌*◌, ◌/◌, ◌%◌, ◌^◌,
  max, Result, ok, err, panic, ◌>>=◌, ◌>>◌, guard, length, take, drop, replicate, get_elem?, ◌++◌,
  ◌==◌, not, if◌then◌else◌, ltb, leb,
}
use merutable.Prelude.Bits.{bit_or, bit_and}
use merutable.Prelude.MeruError.{corruption}

pub record FastLocalBloom : Type 0 where
  pub num_probes : ℕ
  pub bits : Bytes

-- `h.wrapping_mul(0x9e3779b9)` on u32
abbrev pub next_hash : ℕ → ℕ
next_hash h = h * 0x9e3779b9 % 2 ^ 32

-- `fast_range32`
unfoldable pub fast_range32 : ℕ → ℕ → ℕ
fast_range32 hash n = hash * n % 2 ^ 64 / 2 ^ 32

-- `((h >> 23) & 511) as usize`
unfoldable pub bit_position : ℕ → ℕ
bit_position h = bit_and (h / 2 ^ 23) 511

-- A write to an index; out of bounds it panics.
unfoldable pub update_byte : (ℕ → ℕ) → ℕ → Bytes → Result Bytes
update_byte f i [] = panic
update_byte f zero (b ∷ bs) = ok (f b ∷ bs)
update_byte f (suc i) (b ∷ bs) = do rest ← update_byte f i bs; ok (b ∷ rest)

unfoldable pub read_byte : Bytes → ℕ → Result ℕ
read_byte bs i = elim (get_elem? bs i) [ none ↦ panic | some b ↦ ok b ]

-- The loop of `add_inner`: `base` is the first byte of the line.
unfoldable pub add_probes : ℕ → ℕ → ℕ → Bytes → Result Bytes
add_probes zero base h bs = ok bs
add_probes (suc n) base h bs = do
  bs' ← update_byte (λ b. bit_or b (2 ^ (bit_position h % 8))) (base + bit_position h / 8) bs
  add_probes n base (next_hash h) bs'

-- `&data[bucket_idx * 64..(bucket_idx + 1) * 64]`: the line has to lie within the data.
unfoldable pub line_start : Bytes → ℕ → Result ℕ
line_start bs h1 =
    let bucket_idx = fast_range32 h1 (length bs / 64 % 2 ^ 32) in
    if leb ((bucket_idx + 1) * 64) (length bs) then ok (bucket_idx * 64) else panic

-- `add_inner`
unfoldable pub add_inner : Bytes → ℕ → ℕ → ℕ → Result Bytes
add_inner bs h1 h2 num_probes = do base ← line_start bs h1; add_probes num_probes base h2 bs

-- The loop of `probe_scalar`
unfoldable pub check_probes : ℕ → ℕ → ℕ → Bytes → Result Bool
check_probes zero base h bs = ok true
check_probes (suc n) base h bs = do
  b ← read_byte bs (base + bit_position h / 8)
  if bit_and b (2 ^ (bit_position h % 8)) == 0
      then ok false
      else check_probes n base (next_hash h) bs

-- `probe_scalar`
unfoldable pub probe_scalar : Bytes → ℕ → ℕ → ℕ → Result Bool
probe_scalar bs h1 h2 num_probes = do base ← line_start bs h1; check_probes num_probes base h2 bs

module _ (xxh3_64 : Bytes → ℕ) (choose_num_probes : ℕ → ℕ) where
  -- `FastLocalBloom::new`: the product is on u64.
  unfoldable pub new : ℕ → ℕ → FastLocalBloom
  new num_keys bits_per_key =
      let total_bits = max (num_keys * bits_per_key % 2 ^ 64) 512 in
      record {
        num_probes = choose_num_probes bits_per_key;
        bits = replicate ((total_bits + 511) / 512 * 64) 0;
      }

  -- `FastLocalBloom::add`
  unfoldable pub add : FastLocalBloom → Bytes → Result FastLocalBloom
  add f key = do
    bs ← add_inner f.bits (xxh3_64 key / 2 ^ 32) (xxh3_64 key % 2 ^ 32) f.num_probes
    ok (record f { bits = bs })

  -- `FastLocalBloom::may_contain`
  unfoldable pub may_contain : FastLocalBloom → Bytes → Result Bool
  may_contain f key = probe_scalar f.bits (xxh3_64 key / 2 ^ 32) (xxh3_64 key % 2 ^ 32) f.num_probes

-- `FastLocalBloom::num_buckets`
unfoldable pub num_buckets : FastLocalBloom → ℕ
num_buckets f = length f.bits / 64

-- `FastLocalBloom::to_bytes`
unfoldable pub to_bytes : FastLocalBloom → Bytes
to_bytes f = f.num_probes ∷ (to_le_bytes 4 (length f.bits / 64 % 2 ^ 32) ++ f.bits)

-- `FastLocalBloom::from_bytes`; the checked product cannot overflow a usize of 64 bits.
unfoldable pub from_bytes : Bytes → Result FastLocalBloom
from_bytes [] = err corruption
from_bytes (num_probes ∷ raw) = do
  guard (leb 4 (length raw)) corruption
  guard (not (num_probes == 0)) corruption
  let buckets = from_le_bytes (take 4 raw)
  guard (not (buckets == 0)) corruption
  guard (length raw - 4 == buckets * 64) corruption
  ok (record { num_probes = num_probes; bits = drop 4 raw })
