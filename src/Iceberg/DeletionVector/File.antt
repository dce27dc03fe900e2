-- ===== src/Iceberg/DeletionVector/File.antt =====
-- `from_puffin_bytes` of iceberg/deletion_vector.rs: a whole Puffin file, read by its footer.
pub mod Whole
mod Examples
use merutable.Bytes.{Bytes, from_le_bytes, eq_bytes}
use merutable.Iceberg.DeletionVector.{
  Roaring, PuffinBlobMeta, PuffinFooter, puffin_magic, or_error, decode_dv_blob,
}
use merutable.Prelude.MeruError.{corruption}
use merutable.Prelude.Int.{ℤ, pos, negsuc, as_signed}
use merutable.Prelude.{
  ◌>>=◌, ◌>>◌, ℕ, Result, List, ok, guard, Option, leb, ltb, err, none, ◌∷◌, length, ◌+◌, take,
  if◌then◌else◌, ◌^◌, drop, some, ◌-◌, [],
}
use merutable.Prelude.Texts.{str_eq}

-- `v as usize` after the test that `v` is not negative
abbrev pub not_negative : ℤ → Result ℕ
not_negative (pos n) = ok n
not_negative (negsuc n) = err corruption

-- `blobs.iter().find(|b| b.blob_type == "deletion-vector-v1")`
unfoldable pub find_vector : List PuffinBlobMeta → Option PuffinBlobMeta
find_vector [] = none
find_vector (b ∷ bs) =
    let rest = find_vector bs in if str_eq b.blob_type "deletion-vector-v1" then some b else rest

module _ (crc : Bytes → ℕ) (R : Roaring) where
  -- The part of `from_puffin_bytes` that reads the blob
  unfoldable pub decode_range : PuffinBlobMeta → Bytes → Result R.Bitmap
  decode_range blob_meta file = do
    offset ← not_negative blob_meta.offset
    size ← not_negative blob_meta.length_
    guard (ltb (offset + size) (2 ^ 64)) corruption
    guard (leb (offset + size) (length file)) corruption
    decode_dv_blob crc R (take size (drop offset file))

  -- `from_puffin_bytes`; `from_str` stands for the test of UTF-8 and the parser of JSON.
  unfoldable pub from_puffin_bytes : (Bytes → Option PuffinFooter) → Bytes → Result R.Bitmap
  from_puffin_bytes from_str file = do
    guard (leb 12 (length file)) corruption
    guard (eq_bytes (take 4 file) puffin_magic) corruption
    guard (eq_bytes (drop (length file - 4) file) puffin_magic) corruption
    let fl_start = length file - 8
    footer_len ← not_negative (as_signed 31 (from_le_bytes (take 4 (drop fl_start file))))
    guard (leb footer_len (length file - 12)) corruption
    footer ← or_error corruption (from_str (take footer_len (drop (fl_start - footer_len) file)))
    blob_meta ← or_error corruption (find_vector footer.blobs)
    decode_range blob_meta file
