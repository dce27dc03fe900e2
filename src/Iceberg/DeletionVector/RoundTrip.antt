-- ===== src/Iceberg/DeletionVector/RoundTrip.antt =====
-- What is written of a deletion vector (iceberg/deletion_vector.rs) is read back from its range.
use merutable.Bytes.{Bytes, to_be_bytes, from_be_bytes, to_le_bytes, from_le_bytes}
use merutable.Bytes.Order.{eq_bytes_iff}
use merutable.Bytes.Words.{length-to_be_bytes, from_be_bytes-to_be_bytes}
use merutable.Iceberg.DeletionVector.{
  Roaring, PuffinEncoded, PuffinFooter, dv_magic, puffin_magic, or_error, roaring64, encode_blob,
  encode_puffin, decode_one, decode_roaring64, decode_dv_blob, footer_of,
}
use merutable.Prelude.MeruError.{iceberg, corruption}
use merutable.Prelude.Int.{ℤ, pos, as_signed}
use Prim.Native.String.{String}
use merutable.Prelude.{
  ℕ, ok, MeruError, Bool, ◌≡◌, ◌<◌, ◌≤◌, Option, guard, true, length, ◌^◌, some, ◌+◌, false, leb,
  none, >>=-eq-ok, refl, ◌++◌, >>-eq-ok, le→leb, take, ltb, drop, arith, length-append, ◌-◌, lt→ltb,
  ap, ltb→lt, drop-append_length, ==_iff, sym, append_assoc, ◌∙◌, take-append_length, ok_inj,
}

or_error-ok :
    {A : Type 0} (reason : MeruError) (x : Option A) (a : A) → or_error reason x ≡ ok a → x ≡ some a
or_error-ok reason none a e = cc
or_error-ok reason (some b) a e = cc

guard-ok : (b : Bool) (reason : MeruError) → guard b reason ≡ ok tt → b ≡ true
guard-ok true reason e = refl
guard-ok false reason e = cc

module _ (crc : Bytes → ℕ) (R : Roaring) where
  decode_roaring64-roaring64 :
      (bitmap : R.Bitmap) (bytes : Bytes)
      → R.serialize_into bitmap ≡ some bytes
      → decode_roaring64 crc R (roaring64 crc R bytes) ≡ ok bitmap
  unfolding decode_roaring64 decode_one to_le_bytes from_le_bytes
  decode_roaring64-roaring64 bitmap bytes h =
      let wide : leb 8 (length (roaring64 crc R bytes)) ≡ true = le→leb 8 _ (omega arith) in
      let wider : leb 12 (length (roaring64 crc R bytes)) ≡ true = le→leb 12 _ (omega arith) in
      rw (wide, wider) (ap (or_error corruption) (R.deserialize-serialize bitmap bytes h))

  decode_dv_blob-checked :
      (b vector_data : Bytes)
      → 12 ≤ length b
      → 4 + from_be_bytes (take 4 b) ≡ length b
      → take 4 (drop 4 b) ≡ dv_magic
      → crc (take (length b - 4 - 4) (drop 4 b)) ≡ from_be_bytes (drop (length b - 4) b)
      → take (length b - 4 - 8) (drop 8 b) ≡ vector_data
      → decode_dv_blob crc R b ≡ decode_roaring64 crc R vector_data
  unfolding decode_dv_blob
  decode_dv_blob-checked b vector_data long size magic sum rest =
      rw (le→leb 12 _ long, (==_iff _ _).1 size, (eq_bytes_iff _ _).1 magic, (==_iff _ _).1 sum)
        (ap (decode_roaring64 crc R) rest)

  module _ (crc-lt : (b : Bytes) → crc b < 2 ^ 32) where
    decode_dv_blob-framed :
        (vector_data : Bytes)
        → length vector_data + 8 < 2 ^ 32
        → decode_dv_blob crc R (
            to_be_bytes 4 (length (dv_magic ++ vector_data) + 4)
            ++ ((dv_magic ++ vector_data) ++ to_be_bytes 4 (crc (dv_magic ++ vector_data))))
          ≡ decode_roaring64 crc R vector_data
    decode_dv_blob-framed vector_data h =
        let body = dv_magic ++ vector_data in
        let head = to_be_bytes 4 (length body + 4) in
        let sum = to_be_bytes 4 (crc body) in
        let b = head ++ (body ++ sum) in
        let four = length-to_be_bytes 4 (length body + 4) in
        let four_more = length-to_be_bytes 4 (crc body) in
        let inner = length-append {0} body sum in
        let whole = length-append {0} head (body ++ sum) in
        let front = length-append {0} head body in
        let front_magic = length-append {0} head dv_magic in
        let after_head : drop 4 b ≡ body ++ sum =
          drop-append_length 4 head (body ++ sum) (sym four) in
        let after_body : drop (length b - 4) b ≡ sum =
          ap (drop (length b - 4)) (sym (append_assoc head body sum))
          ∙ drop-append_length (length b - 4) (head ++ body) sum
              (omega (arith, four, four_more, inner, whole, front)) in
        let after_magic : drop 8 b ≡ vector_data ++ sum =
          ap (drop 8) (sym (append_assoc head dv_magic (vector_data ++ sum)))
          ∙ drop-append_length 8 (head ++ dv_magic) (vector_data ++ sum)
              (omega (arith, four, front_magic)) in
        decode_dv_blob-checked b vector_data (omega (arith, four, four_more, inner, whole))
          (ap (λ x. 4 + from_be_bytes x) (take-append_length 4 head (body ++ sum) (sym four))
            ∙ ap (λ n. 4 + n) (from_be_bytes-to_be_bytes 4 (length body + 4) (omega (arith, h)))
            ∙ omega (arith, four, four_more, inner, whole))
          (ap (take 4) after_head)
          (ap (λ x. crc (take (length b - 4 - 4) x)) after_head
            ∙ ap crc (
                take-append_length (length b - 4 - 4) body sum
                  (omega (arith, four, four_more, inner, whole)))
            ∙ sym (from_be_bytes-to_be_bytes 4 (crc body) (crc-lt body))
            ∙ ap from_be_bytes (sym after_body))
          (ap (take (length b - 4 - 8)) after_magic
            ∙ take-append_length (length b - 4 - 8) vector_data sum
                (omega (arith, four, four_more, inner, whole)))

    decode_dv_blob-encode_blob :
        (bitmap : R.Bitmap) (blob : Bytes)
        → encode_blob crc R bitmap ≡ ok blob
        → (decode_dv_blob crc R blob ≡ ok bitmap) × (length blob < 2 ^ 63)
    unfolding encode_blob
    decode_dv_blob-encode_blob bitmap blob h =
        let (bytes, found, h1) = >>=-eq-ok (or_error iceberg (R.serialize_into bitmap)) _ h in
        let (small, h2) =
          >>-eq-ok (guard (ltb (length (dv_magic ++ roaring64 crc R bytes) + 4) (2 ^ 32)) iceberg) _
            h1 in
        let body = dv_magic ++ roaring64 crc R bytes in
        let fits = ltb→lt (length body + 4) (2 ^ 32) (guard-ok _ iceberg small) in
        let same = ok_inj h2 in
        let sum = to_be_bytes 4 (crc body) in
        (
          ap (decode_dv_blob crc R) (sym same)
              ∙ decode_dv_blob-framed (roaring64 crc R bytes) (omega (arith, fits))
              ∙ decode_roaring64-roaring64 bitmap bytes (or_error-ok iceberg _ bytes found),
          omega (
            arith,
            fits,
            ap length same,
            length-append {0} (to_be_bytes 4 (length body + 4)) (body ++ sum),
            length-append {0} body sum,
            length-to_be_bytes 4 (length body + 4),
            length-to_be_bytes 4 (crc body),
          ),
        )

    -- What stands in a file that `encode_puffin` writes
    pub encode_puffin-parts :
        (to_string : PuffinFooter → Option Bytes) (bitmap : R.Bitmap) (parquet_path : String)
        (snapshot_id sequence_number : ℤ) (e : PuffinEncoded)
        → encode_puffin crc R to_string bitmap parquet_path snapshot_id sequence_number ≡ ok e
        → (blob footer : Bytes) × (decode_dv_blob crc R blob ≡ ok bitmap)
          × (length blob < 2 ^ 63)
          × (to_string (
                footer_of crc R bitmap parquet_path snapshot_id sequence_number (pos (length blob)))
              ≡ some footer)
          × (length footer < 2 ^ 31)
          × (e ≡ record {
            bytes =
                puffin_magic
                ++ (blob ++ (footer ++ (to_le_bytes 4 (length footer) ++ puffin_magic)));
            blob_offset = pos 4;
            blob_length = pos (length blob);
          })
    unfolding encode_puffin
    encode_puffin-parts to_string bitmap parquet_path snapshot_id sequence_number e h =
        let (blob, encoded, h1) = >>=-eq-ok (encode_blob crc R bitmap) _ h in
        let footer_with : ℤ → Option Bytes =
          λ n. to_string (footer_of crc R bitmap parquet_path snapshot_id sequence_number n) in
        let (footer, written, h2) =
          >>=-eq-ok (or_error iceberg (footer_with (as_signed 63 (length blob)))) _ h1 in
        let (small, h3) = >>-eq-ok (guard (ltb (length footer) (2 ^ 31)) iceberg) _ h2 in
        let (decoded, short) = decode_dv_blob-encode_blob bitmap blob encoded in
        let size : as_signed 63 (length blob) ≡ pos (length blob) =
          rw (lt→ltb (length blob) (2 ^ 63) short) refl in
        (
          blob,
          footer,
          decoded,
          short,
          sym (ap footer_with size) ∙ or_error-ok iceberg _ footer written,
          ltb→lt (length footer) (2 ^ 31) (guard-ok _ iceberg small),
          sym (ok_inj h3)
              ∙ ap
                  (λ n. record {
                    bytes =
                        puffin_magic
                        ++ (blob ++ (footer ++ (to_le_bytes 4 (length footer) ++ puffin_magic)));
                    blob_offset = pos 4;
                    blob_length = n;
                  })
                  size,
        )

    -- Where `encode_puffin` succeeds, the offset and the length it returns are not negative and lie in
    -- the file, and the bytes that stand there decode to the bitmap: what a reader needs to fetch of
    -- the file. The checksum is any function into u32, and the package roaring decodes what it
    -- serializes.
    pub encode_puffin-range :
        (to_string : PuffinFooter → Option Bytes) (bitmap : R.Bitmap) (parquet_path : String)
        (snapshot_id sequence_number : ℤ) (e : PuffinEncoded)
        → encode_puffin crc R to_string bitmap parquet_path snapshot_id sequence_number ≡ ok e
        → (start size : ℕ) × (e.blob_offset ≡ pos start)
          × (e.blob_length ≡ pos size)
          × (start + size ≤ length e.bytes)
          × (decode_dv_blob crc R (take size (drop start e.bytes)) ≡ ok bitmap)
    encode_puffin-range to_string bitmap parquet_path snapshot_id sequence_number e h =
        let (blob, footer, decoded, short, written, small, same) =
          encode_puffin-parts to_string bitmap parquet_path snapshot_id sequence_number e h in
        let after = footer ++ (to_le_bytes 4 (length footer) ++ puffin_magic) in
        let file = ap (λ (x : PuffinEncoded). x.bytes) same in
        (
          4,
          length blob,
          ap (λ (x : PuffinEncoded). x.blob_offset) same,
          ap (λ (x : PuffinEncoded). x.blob_length) same,
          omega (arith, ap length file, length-append {0} blob after),
          ap (λ x. decode_dv_blob crc R (take (length blob) (drop 4 x))) file
              ∙ ap (decode_dv_blob crc R) (take-append_length (length blob) blob after refl)
              ∙ decoded,
        )
