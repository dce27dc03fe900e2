-- ===== src/Engine/ReadPath/Vectors.antt =====
-- The deletion vector of a data file (`open_file` of engine/read_path.rs and `open_source_file` of
-- engine/compaction/job.rs): the range of its bytes in the vector file.
use Prim.Native.String.{String}
use merutable.Prelude.{
  ℕ, Bool, true, false, Option, none, some, ◌+◌, ◌-◌, ◌^◌, ◌≤◌, ◌<◌, ◌≡◌, leb, ltb, ◌||◌, not,
  Result, ok, err, panic, ◌>>=◌, ◌>>◌, guard, arith, refl,
}
use merutable.Prelude.Int.{ℤ, pos, negsuc}
use merutable.Prelude.MeruError.{corruption}

-- `as usize` of an i64
abbrev pub as_usize : ℤ → ℕ
as_usize (pos n) = n
as_usize (negsuc n) = 2 ^ 64 - 1 - n

abbrev pub is_negative : ℤ → Bool
is_negative (pos n) = false
is_negative (negsuc n) = true

-- The end of the range: the checked sum, and the comparison with the length of the file
unfoldable pub range_end : ℕ → ℕ → ℕ → Result ℕ
range_end start length puffin_len =
    guard (ltb (start + length) (2 ^ 64)) corruption
    >> (guard (leb (start + length) puffin_len) corruption >> ok (start + length))

abbrev pub with_start : ℕ → ℕ → Result (Option (ℕ × ℕ))
with_start start end = ok (some (start, end))

-- The match of `open_file` on the three coordinates; `puffin_len` is the length of the vector file.
unfoldable pub vector_range : Option String → Option ℤ → Option ℤ → ℕ → Result (Option (ℕ × ℕ))
vector_range (some path) (some offset) (some length) puffin_len =
    range_end (as_usize offset) (as_usize length) puffin_len >>= with_start (as_usize offset)
vector_range none none none puffin_len = ok none
vector_range _ _ _ puffin_len = err corruption

-- The match of `open_source_file`
unfoldable pub source_vector_range :
    Option String → Option ℤ → Option ℤ → ℕ → Result (Option (ℕ × ℕ))
source_vector_range (some path) (some offset) (some length) puffin_len =
    guard (not (is_negative offset || is_negative length)) corruption
    >> (range_end (as_usize offset) (as_usize length) puffin_len >>= with_start (as_usize offset))
source_vector_range none none none puffin_len = ok none
source_vector_range _ _ _ puffin_len = err corruption

-- The range of an i64
abbrev pub IsI64 : ℤ → Type 0
IsI64 (pos n) = n < 2 ^ 63
IsI64 (negsuc n) = n < 2 ^ 63

range_end-large :
    (start length puffin_len : ℕ)
    → puffin_len < start + length
    → range_end start length puffin_len ≡ err corruption
unfolding range_end
range_end-large start length puffin_len h = ground (arith, h)

range_end-ok :
    (start length puffin_len end : ℕ)
    → range_end start length puffin_len ≡ ok end
    → (start ≤ end) × (end ≤ puffin_len)
unfolding range_end
range_end-ok start length puffin_len end h = ground (arith, h)

-- Coordinates that are refused give no range.
refused :
    (r : Result ℕ) (start : ℕ) → r ≡ err corruption → (r >>= with_start start) ≡ err corruption
refused r start e = rw e refl

within :
    (r : Result ℕ) (start first last puffin_len : ℕ)
    → ((end : ℕ) → r ≡ ok end → (start ≤ end) × (end ≤ puffin_len))
    → (r >>= with_start start) ≡ ok (some (first, last))
    → (first ≤ last) × (last ≤ puffin_len)
within (ok end) start first last puffin_len h e =
    let b = h end refl in
    let same : with_start start end ≡ ok (some (first, last)) = e in ground (arith, b, same)
within (err reason) start first last puffin_len h e = cc
within panic start first last puffin_len h e = cc

-- The offset and the length are of i64, and the vector file has fewer than 2^63 bytes, as every `Vec`
-- does. Both readers accept the same coordinates, though only one of them looks for a negative number;
-- and a range that they accept lies within the vector file, so that slicing it does not panic.
pub vector_range-source :
    (path : Option String) (offset length : Option ℤ) (puffin_len : ℕ)
    → ((o : ℤ) → offset ≡ some o → IsI64 o)
    → ((l : ℤ) → length ≡ some l → IsI64 l)
    → puffin_len < 2 ^ 63
    → (vector_range path offset length puffin_len
        ≡ source_vector_range path offset length puffin_len)
      × ((start end : ℕ)
          → vector_range path offset length puffin_len ≡ ok (some (start, end))
          → (start ≤ end) × (end ≤ puffin_len))
unfolding vector_range source_vector_range
vector_range-source (some p) (some (pos o)) (some (pos l)) n ho hl small =
    (refl, λ s e q. within (range_end o l n) o s e n (λ z. range_end-ok o l n z) q)
vector_range-source (some p) (some (pos o)) (some (negsuc l)) n ho hl small =
    let bound = hl (negsuc l) refl in
    (
      refused (range_end o (2 ^ 64 - 1 - l) n) o
          (range_end-large o (2 ^ 64 - 1 - l) n (omega (arith, bound, small))),
      λ s e q.
          within (range_end o (2 ^ 64 - 1 - l) n) o s e n (λ z. range_end-ok o (2 ^ 64 - 1 - l) n z)
            q,
    )
vector_range-source (some p) (some (negsuc o)) (some l) n ho hl small =
    let bound = ho (negsuc o) refl in
    (
      refused (range_end (2 ^ 64 - 1 - o) (as_usize l) n) (2 ^ 64 - 1 - o)
          (range_end-large (2 ^ 64 - 1 - o) (as_usize l) n (omega (arith, bound, small))),
      λ s e q.
          within (range_end (2 ^ 64 - 1 - o) (as_usize l) n) (2 ^ 64 - 1 - o) s e n
            (λ z. range_end-ok (2 ^ 64 - 1 - o) (as_usize l) n z) q,
    )
vector_range-source (some p) (some o) none n ho hl small = (refl, λ s e q. cc)
vector_range-source (some p) none l n ho hl small = (refl, λ s e q. cc)
vector_range-source none none none n ho hl small = (refl, λ s e q. cc)
vector_range-source none none (some l) n ho hl small = (refl, λ s e q. cc)
vector_range-source none (some o) l n ho hl small = (refl, λ s e q. cc)
