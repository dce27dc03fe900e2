-- ===== src/Parquet/KvIndex/Entry.antt =====
-- One entry of the index, written and read (parquet/kv_index.rs).
use merutable.Bytes.{Bytes, to_le_bytes}
use merutable.Bytes.Words.{length-to_le_bytes}
use merutable.Parquet.KvIndex.{
  PageLocation, KvSparseIndex, slice, u_at, encode_entry, decode_entry_at,
}
use merutable.Parquet.KvIndex.Slices.{slice-skip, slice-here, u_at-skip, u_at-here}
use merutable.Prelude.{
  ℕ, ◌+◌, ◌-◌, ◌%◌, ◌^◌, ◌≤◌, ◌<◌, ◌≡◌, ◌∙◌, ok, length, take, drop, ◌++◌, refl, arith,
  length-append, length-drop, append_assoc, ap, take-append-drop,
}

-- The fields fit their integers.
abbrev pub InRange : PageLocation → Type 0
InRange loc = (loc.page_offset < 2 ^ 64) × (loc.page_size < 2 ^ 32) × (loc.first_row_index < 2 ^ 64)

pub length-encode_entry :
    (s : ℕ) (key : Bytes) (loc : PageLocation)
    → length (encode_entry s key loc) ≡ 24 + (length key - s)
unfolding encode_entry
length-encode_entry s key loc = simp (length-append, length-to_le_bytes, length-drop) (omega arith)

-- An entry that is followed by `back`, field by field
abbrev row_on : PageLocation → Bytes → Bytes
row_on loc back = to_le_bytes 8 loc.first_row_index ++ back

abbrev size_on : PageLocation → Bytes → Bytes
size_on loc back = to_le_bytes 4 loc.page_size ++ row_on loc back

abbrev offset_on : PageLocation → Bytes → Bytes
offset_on loc back = to_le_bytes 8 loc.page_offset ++ size_on loc back

abbrev suffix_on : ℕ → Bytes → PageLocation → Bytes → Bytes
suffix_on s key loc back = drop s key ++ offset_on loc back

abbrev length_on : ℕ → Bytes → PageLocation → Bytes → Bytes
length_on s key loc back = to_le_bytes 2 (length (drop s key) % 2 ^ 16) ++ suffix_on s key loc back

abbrev entry_on : ℕ → Bytes → PageLocation → Bytes → Bytes
entry_on s key loc back = to_le_bytes 2 (s % 2 ^ 16) ++ length_on s key loc back

encode_entry-append :
    (s : ℕ) (key : Bytes) (loc : PageLocation) (back : Bytes)
    → encode_entry s key loc ++ back ≡ entry_on s key loc back
unfolding encode_entry
encode_entry-append s key loc back = simp append_assoc

-- The bytes hold an entry after `front`.
module _ (front : Bytes) (s : ℕ) (key : Bytes) (loc : PageLocation) (back : Bytes) (pos : ℕ)
    (short : length key < 2 ^ 16) (there : pos ≡ length front) where
  bytes_of : Bytes
  bytes_of = front ++ (encode_entry s key loc ++ back)

  pub shared_at : s ≤ length key → u_at 2 (front ++ (encode_entry s key loc ++ back)) pos ≡ ok s
  shared_at h = rw (encode_entry-append s key loc back) (
      u_at-skip 2 front (entry_on s key loc back) pos 0 (omega (arith, there))
      ∙ u_at-here 2 (s % 2 ^ 16) (length_on s key loc back) (omega arith)
      ∙ ap ok (small s (omega (arith, h, short))))
    where
      small : (n : ℕ) → n < 2 ^ 16 → n % 2 ^ 16 ≡ n
      small n l = omega (arith, l)

  pub suffix_len_at :
      u_at 2 (front ++ (encode_entry s key loc ++ back)) (pos + 2) ≡ ok (length (drop s key))
  suffix_len_at = rw (encode_entry-append s key loc back) (
      u_at-skip 2 front (entry_on s key loc back) (pos + 2) 2 (omega (arith, there))
      ∙ u_at-skip 2 (to_le_bytes 2 (s % 2 ^ 16)) (length_on s key loc back) 2 0
          (omega (arith, length-to_le_bytes 2 (s % 2 ^ 16)))
      ∙ u_at-here 2 (length (drop s key) % 2 ^ 16) (suffix_on s key loc back) (omega arith)
      ∙ ap ok (small (length (drop s key)) (omega (arith, short, length-drop {0} s key))))
    where
      small : (n : ℕ) → n < 2 ^ 16 → n % 2 ^ 16 ≡ n
      small n l = omega (arith, l)

  to_suffix : length (to_le_bytes 2 (s % 2 ^ 16)) ≡ 2
  to_suffix = length-to_le_bytes 2 (s % 2 ^ 16)

  to_suffix' : length (to_le_bytes 2 (length (drop s key) % 2 ^ 16)) ≡ 2
  to_suffix' = length-to_le_bytes 2 (length (drop s key) % 2 ^ 16)

  pub suffix_at :
      slice (front ++ (encode_entry s key loc ++ back)) (pos + 4) (length (drop s key))
      ≡ ok (drop s key)
  suffix_at = rw (encode_entry-append s key loc back) (
      slice-skip front (entry_on s key loc back) (pos + 4) 4 _ (omega (arith, there))
      ∙ slice-skip (to_le_bytes 2 (s % 2 ^ 16)) (length_on s key loc back) 4 2 _
          (omega (arith, to_suffix))
      ∙ slice-skip (to_le_bytes 2 (length (drop s key) % 2 ^ 16)) (suffix_on s key loc back) 2 0 _
          (omega (arith, to_suffix'))
      ∙ slice-here (drop s key) (offset_on loc back) _ refl)

  -- A read in the fields after the suffix
  after_suffix :
      (k p at : ℕ)
      → at ≡ pos + 4 + length (drop s key) + p
      → u_at k (front ++ (encode_entry s key loc ++ back)) at ≡ u_at k (offset_on loc back) p
  after_suffix k p at e = rw (encode_entry-append s key loc back) (
      u_at-skip k front (entry_on s key loc back) at (4 + length (drop s key) + p)
        (omega (arith, there, e))
      ∙ u_at-skip k (to_le_bytes 2 (s % 2 ^ 16)) (length_on s key loc back)
          (4 + length (drop s key) + p) (2 + length (drop s key) + p) (omega (arith, to_suffix))
      ∙ u_at-skip k (to_le_bytes 2 (length (drop s key) % 2 ^ 16)) (suffix_on s key loc back)
          (2 + length (drop s key) + p) (length (drop s key) + p) (omega (arith, to_suffix'))
      ∙ u_at-skip k (drop s key) (offset_on loc back) (length (drop s key) + p) p refl)

  location_at :
      InRange loc
      → (u_at 8 (front ++ (encode_entry s key loc ++ back)) (pos + 4 + length (drop s key))
          ≡ ok loc.page_offset)
        × (u_at 4 (front ++ (encode_entry s key loc ++ back)) (pos + 4 + length (drop s key) + 8)
            ≡ ok loc.page_size)
        × (u_at 8 (front ++ (encode_entry s key loc ++ back)) (pos + 4 + length (drop s key) + 12)
            ≡ ok loc.first_row_index)
  location_at (a, b, c) = (
    after_suffix 8 0 _ (omega arith)
        ∙ u_at-here 8 loc.page_offset (size_on loc back) (omega (arith, a)),
    after_suffix 4 8 _ refl
        ∙ u_at-skip 4 (to_le_bytes 8 loc.page_offset) (size_on loc back) 8 0
            (omega (arith, length-to_le_bytes 8 loc.page_offset))
        ∙ u_at-here 4 loc.page_size (row_on loc back) (omega (arith, b)),
    after_suffix 8 12 _ refl
        ∙ u_at-skip 8 (to_le_bytes 8 loc.page_offset) (size_on loc back) 12 4
            (omega (arith, length-to_le_bytes 8 loc.page_offset))
        ∙ u_at-skip 8 (to_le_bytes 4 loc.page_size) (row_on loc back) 4 0
            (omega (arith, length-to_le_bytes 4 loc.page_size))
        ∙ u_at-here 8 loc.first_row_index back (omega (arith, c)),
  )

-- An entry is decoded as it was written, after a key that shares as many bytes as it says.
pub decode-encode_entry :
    (index : KvSparseIndex) (front back : Bytes) (s : ℕ) (key prev : Bytes) (loc : PageLocation)
    (cursor : ℕ)
    → index.bytes ≡ front ++ (encode_entry s key loc ++ back)
    → index.entries_offset + cursor ≡ length front
    → length key < 2 ^ 16
    → InRange loc
    → s ≤ length key
    → slice prev 0 s ≡ ok (take s key)
    → decode_entry_at index cursor prev ≡ ok (key, (loc, cursor + (24 + (length key - s))))
unfolding decode_entry_at
decode-encode_entry index front back s key prev loc cursor e there short range le same =
    let (a, b, c) =
      location_at front s key loc back (index.entries_offset + cursor) short there range in
    rw
      (
        e,
        shared_at front s key loc back (index.entries_offset + cursor) short there le,
        suffix_len_at front s key loc back (index.entries_offset + cursor) short there,
        suffix_at front s key loc back (index.entries_offset + cursor) short there,
        same,
        a,
        b,
        c,
        take-append-drop s key,
        end,
      )
      refl
  where
    end :
        index.entries_offset + cursor + 4 + length (drop s key) + 20 - index.entries_offset
        ≡ cursor + (24 + (length key - s))
    end = omega (arith, length-drop {0} s key)
