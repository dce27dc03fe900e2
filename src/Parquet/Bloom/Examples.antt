-- ===== src/Parquet/Bloom/Examples.antt =====
-- The filter (parquet/bloom.rs) with a sum of the bytes for a hash.
use merutable.Bytes.{Bytes, from_le_bytes}
use merutable.Parquet.Bloom.{FastLocalBloom, new, may_contain, to_bytes, from_bytes}
use merutable.Parquet.Bloom.Membership.{IsTable, add_all, may_contain-add_all}
use merutable.Parquet.Bloom.Stored.{from_bytes-to_bytes, may_contain-from_bytes}
use merutable.Prelude.{
  ℕ, Bool, true, [], ◌∷◌, ◌+◌, ◌*◌, ◌%◌, ◌^◌, ◌<◌, ◌≡◌, ok, replicate, refl, arith,
}

abbrev hash : Bytes → ℕ
hash [] = 7
hash (b ∷ bs) = (hash bs * 1099511628211 + b) % 2 ^ 64

hash_lt : (k : Bytes) → hash k < 2 ^ 64
hash_lt [] = omega arith
hash_lt (b ∷ bs) = omega arith

abbrev two_probes : ℕ → ℕ
two_probes bits_per_key = 2

may_contain-add_all_example :
    (g : FastLocalBloom) × (add_all hash two_probes hash_lt
        (new hash two_probes 100 10)
        ((1 ∷ []) ∷ (2 ∷ 3 ∷ []) ∷ (4 ∷ []) ∷ [])
      ≡ ok g)
    × (may_contain hash two_probes g (2 ∷ 3 ∷ []) ≡ ok true)
may_contain-add_all_example =
    may_contain-add_all hash two_probes hash_lt 100 10 ((1 ∷ []) ∷ []) ((4 ∷ []) ∷ []) (2 ∷ 3 ∷ [])
      (omega arith)

abbrev one_line : FastLocalBloom
one_line = record { num_probes = 6; bits = replicate 64 255 }

one_line-IsTable : IsTable one_line.bits
one_line-IsTable = record { lines = 1; some_line = omega arith; few = omega arith; whole = refl }

from_bytes-to_bytes_example : from_bytes (to_bytes one_line) ≡ ok one_line
from_bytes-to_bytes_example = from_bytes-to_bytes one_line one_line-IsTable (omega arith)

accepted : from_bytes (6 ∷ 1 ∷ 0 ∷ 0 ∷ 0 ∷ replicate 64 255) ≡ ok one_line
unfolding from_bytes from_le_bytes
accepted = refl

may_contain-from_bytes_example :
    (0 < one_line.num_probes)
    × ((found : Bool) × (may_contain hash two_probes one_line (9 ∷ []) ≡ ok found))
may_contain-from_bytes_example =
    may_contain-from_bytes hash two_probes (6 ∷ 1 ∷ 0 ∷ 0 ∷ 0 ∷ replicate 64 255) one_line (9 ∷ [])
      (hash_lt (9 ∷ [])) (omega arith) accepted
