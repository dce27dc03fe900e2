-- ===== src/Parquet/KvIndex/Slices.antt =====
-- Reads of a range of bytes (parquet/kv_index.rs): past what stands before it, and in place.
use merutable.Bytes.{Bytes, to_le_bytes}
use merutable.Bytes.Words.{length-to_le_bytes, from_le_bytes-to_le_bytes}
use merutable.Parquet.KvIndex.{slice, u_at}
use merutable.Prelude.{
  ℕ, suc, [], ◌∷◌, ◌+◌, ◌^◌, ◌<◌, ◌≡◌, ok, panic, length, take, drop, ◌++◌, leb, le→leb, refl,
  arith, length-append, take-append_length, if◌then◌else◌, sym, ap,
}

drop-skip : (front xs : Bytes) (p : ℕ) → drop (length front + p) (front ++ xs) ≡ drop p xs
drop-skip [] xs p = rw (none_before p) refl
  where
    none_before : (p : ℕ) → 0 + p ≡ p
    none_before p = omega arith
drop-skip (x ∷ front) xs p = rw (one_before (length front) p) (drop-skip front xs p)
  where
    one_before : (a p : ℕ) → suc a + p ≡ suc (a + p)
    one_before a p = omega arith

leb_shift : (a b c : ℕ) → leb (a + b) (a + c) ≡ leb b c
leb_shift a b c = ground arith

-- What stands before a range does not matter.
pub slice-skip :
    (front xs : Bytes) (pos p n : ℕ)
    → pos ≡ length front + p
    → slice (front ++ xs) pos n ≡ slice xs p n
unfolding slice
slice-skip front xs pos p n e =
    rw (e, drop-skip front xs p, length-append {0} front xs, add_assoc_lem (length front) p n)
      (ap (λ t. if t then ok (take n (drop p xs)) else panic)
        (leb_shift (length front) (p + n) (length xs)))
  where
    add_assoc_lem : (a b c : ℕ) → a + b + c ≡ a + (b + c)
    add_assoc_lem a b c = omega arith

pub slice-here : (b c : Bytes) (n : ℕ) → n ≡ length b → slice (b ++ c) 0 n ≡ ok b
unfolding slice
slice-here b c n e =
    let fits = le→leb (0 + n) (length (b ++ c)) (omega (arith, e, length-append {0} b c)) in
    rw (fits, take-append_length n b c e) refl

pub u_at-skip :
    (k : ℕ) (front xs : Bytes) (pos p : ℕ)
    → pos ≡ length front + p
    → u_at k (front ++ xs) pos ≡ u_at k xs p
unfolding u_at
u_at-skip k front xs pos p e = rw (slice-skip front xs pos p k e) refl

pub u_at-here : (k v : ℕ) (c : Bytes) → v < 256 ^ k → u_at k (to_le_bytes k v ++ c) 0 ≡ ok v
unfolding u_at
u_at-here k v c h =
    rw
      (
        slice-here (to_le_bytes k v) c k (sym (length-to_le_bytes k v)),
        from_le_bytes-to_le_bytes k v h,
      )
      refl
