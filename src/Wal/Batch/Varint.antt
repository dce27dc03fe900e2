-- ===== src/Wal/Batch/Varint.antt =====
-- The LEB128 integers of the batch format: what is written is read back, at any place of a slice.
use native.Mathlib.Numerals.{towards_suc}
use native.Mathlib.Nat.{pow-suc, div-add-mod}
use merutable.Prelude.{
  ap, arith, ℕ, ◌<◌, ◌^◌, ◌≡◌, ◌*◌, ◌+◌, ◌%◌, ◌/◌, ◌∷◌, ok, ◌++◌, ◌≤◌, suc, ◌∙◌, [], refl, zero,
}
use merutable.Prelude.Bits.{bit_or, bit_and, bit_and-mask, bit_and-top, bit_or-onto}
use merutable.Bytes.{Bytes}
use merutable.Wal.Batch.{put_varint_loop, put_varint, read_varint_loop, read_varint}
use native.Mathlib.Decide.{dec_lt}

low_group : (v : ℕ) → bit_and v 0x7f ≡ v % 128
low_group v = bit_and-mask 7 v

more_group : (v : ℕ) → bit_or (bit_and v 0x7f) 0x80 ≡ v % 128 + 128
more_group v = rw (low_group v) (bit_or-onto 7 1 (v % 128) (omega arith))

next_shift : (shift : ℕ) → 2 ^ (shift + 7) ≡ 128 * 2 ^ shift
next_shift shift = simp towards_suc (omega arith)

-- What is read of a value and what is still to be read of it make the value, at any shift.
groups_sum : (shift v : ℕ) → v % 128 * 2 ^ shift + v / 128 * 2 ^ (shift + 7) ≡ v * 2 ^ shift
groups_sum shift v =
    let parts = ap (λ (total : ℕ). total * 2 ^ shift) (div-add-mod v 128) in
    let upper = ap (λ (unit : ℕ). v / 128 * unit) (next_shift shift) in omega (arith, upper, parts)

-- `val |= g << shift` where `val` lies below the shift and the sum is a u64.
add_group :
    (g val shift : ℕ)
    → val < 2 ^ shift
    → val + g * 2 ^ shift < 2 ^ 64
    → bit_or val (g * 2 ^ shift % 2 ^ 64) ≡ val + g * 2 ^ shift
add_group g val shift h k =
    let small : g * 2 ^ shift % 2 ^ 64 ≡ g * 2 ^ shift = omega arith in
    rw small (bit_or-onto shift g val h)

last_byte :
    (w val shift : ℕ) (rest : Bytes)
    → w < 128
    → val < 2 ^ shift
    → val + w * 2 ^ shift < 2 ^ 64
    → read_varint_loop (w ∷ rest) val shift ≡ ok (val + w * 2 ^ shift, rest)
unfolding read_varint_loop
last_byte w val shift rest hw hv fits =
    ground (arith, low_group w, bit_and-top w, add_group w val shift)

inner_byte :
    (g val shift : ℕ) (rest : Bytes)
    → g < 128
    → val < 2 ^ shift
    → val + g * 2 ^ shift < 2 ^ 64
    → shift + 7 < 64
    → read_varint_loop ((g + 128) ∷ rest) val shift
      ≡ read_varint_loop rest (val + g * 2 ^ shift) (shift + 7)
unfolding read_varint_loop
inner_byte g val shift rest hg hv fits hs =
    ground (arith, low_group (g + 128), bit_and-top (g + 128), add_group g val shift)

put_varint_loop-last : (f v : ℕ) → v < 128 → put_varint_loop (suc f) v ≡ v ∷ []
unfolding put_varint_loop
put_varint_loop-last f v h = ground (arith, low_group v)

put_varint_loop-more :
    (f v : ℕ) → 128 ≤ v → put_varint_loop (suc f) v ≡ (v % 128 + 128) ∷ put_varint_loop f (v / 128)
unfolding put_varint_loop
put_varint_loop-more f v h = ground (arith, more_group v)

mul_mono : (p x y : ℕ) → x ≤ y → x * p ≤ y * p
mul_mono p x y h = grind arith

-- After `j` groups the shift is 7 * j, and `f + 1` groups are still to come at most.
read-put_loop :
    (f j w val shift : ℕ) (rest : Bytes)
    → shift ≡ 7 * j
    → j + f ≡ 9
    → w < 128 ^ suc f
    → val < 2 ^ shift
    → val + w * 2 ^ shift < 2 ^ 64
    → read_varint_loop (put_varint_loop (suc f) w ++ rest) val shift
      ≡ ok (val + w * 2 ^ shift, rest)
read-put_loop zero j w val shift rest hs hj hw hv fits =
    rw (put_varint_loop-last zero w (omega arith))
      (last_byte w val shift rest (omega arith) hv fits)
read-put_loop (suc f) j w val shift rest hs hj hw hv fits = elim (dec_lt w 128) [
  | yes small ↦ rw (put_varint_loop-last (suc f) w small) (last_byte w val shift rest small hv fits)
  | no large ↦ rw (put_varint_loop-more (suc f) w (omega arith)) (
      inner_byte (w % 128) val shift (put_varint_loop (suc f) (w / 128) ++ rest) (omega arith) hv
        (omega (arith, groups_sum shift w)) (omega arith)
      ∙ read-put_loop f (j + 1) (w / 128) (val + w % 128 * 2 ^ shift) (shift + 7) rest (omega arith)
          (omega arith) (omega (arith, pow-suc 128 (suc f)))
          (omega (arith, next_shift shift, mul_mono (2 ^ shift) (w % 128) 127 (omega arith)))
          (omega (arith, groups_sum shift w))
      ∙ ap (λ n. ok (n, rest)) (omega (arith, groups_sum shift w)))
]

-- `read_varint` returns the u64 that `put_varint` wrote, and leaves what follows it.
pub read_varint-put_varint :
    (v : ℕ) (rest : Bytes) → v < 2 ^ 64 → read_varint (put_varint v ++ rest) ≡ ok (v, rest)
unfolding read_varint put_varint
read_varint-put_varint v rest h =
    read-put_loop 9 0 v 0 0 rest refl refl (omega arith) (omega arith) (omega arith)
    ∙ ap (λ n. ok (n, rest)) (omega arith)
