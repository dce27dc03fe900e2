-- ===== src/Iceberg/DeletionVector/File/Whole.antt =====
-- A Puffin file that is written (iceberg/deletion_vector.rs) is read back by its footer.
use merutable.Bytes.{Bytes, from_le_bytes, to_le_bytes}
use merutable.Bytes.Order.{eq_bytes_iff}
use merutable.Bytes.Words.{length-to_le_bytes, from_le_bytes-to_le_bytes}
use merutable.Iceberg.DeletionVector.{
  Roaring, PuffinBlobMeta, PuffinEncoded, PuffinFooter, puffin_magic, or_error, decode_dv_blob,
  encode_puffin, footer_of,
}
use merutable.Iceberg.DeletionVector.File.{
  not_negative, find_vector, decode_range, from_puffin_bytes,
}
use merutable.Iceberg.DeletionVector.RoundTrip.{encode_puffin-parts}
use merutable.Prelude.MeruError.{corruption}
use merutable.Prelude.Int.{ℤ, pos, as_signed}
use Prim.Native.String.{String}
use merutable.Prelude.{
  ℕ, ◌<◌, Option, ◌≡◌, ◌+◌, ◌∷◌, ◌^◌, ◌≤◌, some, [], length, take, ok, ◌++◌, drop, refl, ap₂, ap,
  ◌-◌, ◌>>=◌, le→leb, guard, ltb, ◌>>◌, leb, ◌∙◌, lt→ltb, sym, length-append, arith, append_assoc,
  take-append_length, drop-append_length,
}
use merutable.Prelude.Texts.{str_eq_iff}

module _ (crc : Bytes → ℕ) (R : Roaring) where
  from_puffin_bytes-checked :
      (from_str : Bytes → Option PuffinFooter) (file : Bytes) (n : ℕ) (footer : PuffinFooter)
      → 12 ≤ length file
      → take 4 file ≡ puffin_magic
      → drop (length file - 4) file ≡ puffin_magic
      → as_signed 31 (from_le_bytes (take 4 (drop (length file - 8) file))) ≡ pos n
      → n ≤ length file - 12
      → from_str (take n (drop (length file - 8 - n) file)) ≡ some footer
      → from_puffin_bytes crc R from_str file
        ≡ (or_error corruption (find_vector footer.blobs) >>= λ m. decode_range crc R m file)
  unfolding from_puffin_bytes
  from_puffin_bytes-checked from_str file n footer long front back count fits parsed =
      rw (le→leb 12 _ long, (eq_bytes_iff _ _).1 front, (eq_bytes_iff _ _).1 back, count)
        (rw (le→leb n _ fits, parsed) refl)

  -- The footer of a file of a blob, a footer and its length between two magic numbers
  from_puffin_bytes-framed :
      (from_str : Bytes → Option PuffinFooter) (file blob json : Bytes) (footer : PuffinFooter)
      → file ≡ puffin_magic ++ (blob ++ (json ++ (to_le_bytes 4 (length json) ++ puffin_magic)))
      → length json < 2 ^ 31
      → from_str json ≡ some footer
      → from_puffin_bytes crc R from_str file
        ≡ (or_error corruption (find_vector footer.blobs) >>= λ m. decode_range crc R m file)
  from_puffin_bytes-framed from_str file blob json footer whole small parsed =
      let count = to_le_bytes 4 (length json) in
      let tail = count ++ puffin_magic in
      let four = length-to_le_bytes 4 (length json) in
      let before_json = whole ∙ sym (append_assoc puffin_magic blob (json ++ tail)) in
      let before_count = before_json ∙ sym (append_assoc (puffin_magic ++ blob) json tail) in
      let before_magic =
        before_count ∙ sym (append_assoc ((puffin_magic ++ blob) ++ json) count puffin_magic) in
      let blob_json = length-append {0} blob json in
      let inner = length-append {0} blob (json ++ tail) in
      let size : length file ≡ length blob + length json + 12 = omega (
        arith,
        ap length whole,
        inner,
        length-append {0} json tail,
        length-append {0} count puffin_magic,
        four,
      ) in
      let at_count : drop (length file - 8) file ≡ tail =
        ap (drop (length file - 8)) before_count
        ∙ drop-append_length (length file - 8) ((puffin_magic ++ blob) ++ json) tail
            (omega (arith, size, blob_json)) in
      let at_json : drop (length file - 8 - length json) file ≡ json ++ tail =
        ap (drop (length file - 8 - length json)) before_json
        ∙ drop-append_length (length file - 8 - length json) (puffin_magic ++ blob) (json ++ tail)
            (omega (arith, size)) in
      let not_neg : as_signed 31 (length json) ≡ pos (length json) =
        rw (lt→ltb (length json) (2 ^ 31) small) refl in
      from_puffin_bytes-checked from_str file (length json) footer (omega (arith, size))
        (ap (take 4) whole)
        (ap (drop (length file - 4)) before_magic
          ∙ drop-append_length (length file - 4) (((puffin_magic ++ blob) ++ json) ++ count)
              puffin_magic
              (omega (arith, size, blob_json, length-append {0} (blob ++ json) count, four)))
        (ap (λ x. as_signed 31 (from_le_bytes (take 4 x))) at_count
          ∙ ap (λ x. as_signed 31 (from_le_bytes x))
              (take-append_length 4 count puffin_magic (sym four))
          ∙ ap (as_signed 31) (from_le_bytes-to_le_bytes 4 (length json) (omega (arith, small)))
          ∙ not_neg)
        (omega (arith, size))
        (ap (λ x. from_str (take (length json) x)) at_json
          ∙ ap from_str (take-append_length (length json) json tail refl)
          ∙ parsed)

  decode_range-checked :
      (m : PuffinBlobMeta) (file : Bytes) (start size : ℕ)
      → m.offset ≡ pos start
      → m.length_ ≡ pos size
      → start + size < 2 ^ 64
      → start + size ≤ length file
      → decode_range crc R m file ≡ decode_dv_blob crc R (take size (drop start file))
  unfolding decode_range
  decode_range-checked m file start size o l few fits =
      ap₂
        (λ a b. not_negative a >>= λ o. not_negative b >>= λ s.
          guard (ltb (o + s) (2 ^ 64)) corruption
          >> (guard (leb (o + s) (length file)) corruption
              >> decode_dv_blob crc R (take s (drop o file))))
        o l
      ∙ rw (lt→ltb _ _ few, le→leb _ _ fits) refl

  find_vector-one :
      (m : PuffinBlobMeta) → m.blob_type ≡ "deletion-vector-v1" → find_vector (m ∷ []) ≡ some m
  unfolding find_vector
  find_vector-one m e = rw ((str_eq_iff m.blob_type "deletion-vector-v1").1 e) refl

  module _ (crc-lt : (b : Bytes) → crc b < 2 ^ 32) (to_string : PuffinFooter → Option Bytes)
      (from_str : Bytes → Option PuffinFooter)
      (parsed-written : (footer : PuffinFooter) (bytes : Bytes)
        → to_string footer ≡ some bytes
        → from_str bytes ≡ some footer) where
    -- A file that `encode_puffin` writes is read back to the bitmap by `from_puffin_bytes`. The parser of
    -- the footer reads what its printer writes, the checksum is any function into u32, and the package
    -- roaring decodes what it serializes.
    pub from_puffin_bytes-encode_puffin :
        (bitmap : R.Bitmap) (parquet_path : String) (snapshot_id sequence_number : ℤ)
        (e : PuffinEncoded)
        → encode_puffin crc R to_string bitmap parquet_path snapshot_id sequence_number ≡ ok e
        → from_puffin_bytes crc R from_str e.bytes ≡ ok bitmap
    from_puffin_bytes-encode_puffin bitmap parquet_path snapshot_id sequence_number e h =
        let (blob, json, decoded, short, written, small, same) =
          encode_puffin-parts crc R crc-lt to_string bitmap parquet_path snapshot_id sequence_number
            e h in
        let after = json ++ (to_le_bytes 4 (length json) ++ puffin_magic) in
        let whole = ap (λ (x : PuffinEncoded). x.bytes) same in
        let inner = length-append {0} blob after in
        let footer =
          footer_of crc R bitmap parquet_path snapshot_id sequence_number (pos (length blob)) in
        from_puffin_bytes-framed from_str e.bytes blob json footer whole small
          (parsed-written footer json written)
        ∙ ap (λ x. or_error corruption x >>= λ m. decode_range crc R m e.bytes)
            (find_vector-one _ refl)
        ∙ decode_range-checked _ e.bytes 4 (length blob) refl refl (omega (arith, short))
            (omega (arith, ap length whole, inner))
        ∙ ap (λ x. decode_dv_blob crc R (take (length blob) (drop 4 x))) whole
        ∙ ap (decode_dv_blob crc R) (take-append_length (length blob) blob after refl)
        ∙ decoded
