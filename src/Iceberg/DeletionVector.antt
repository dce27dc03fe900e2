-- ===== src/Iceberg/DeletionVector.antt =====
-- iceberg/deletion_vector.rs: the blob of a deletion vector, and the Puffin file that holds it. The
-- bitmaps of the package roaring are an interface, and the JSON of the footer is a parameter.
pub mod RoundTrip
pub mod File
mod Examples
use merutable.Bytes.{Bytes, to_be_bytes, from_be_bytes, to_le_bytes, from_le_bytes, eq_bytes}
use merutable.Prelude.MeruError.{iceberg, corruption}
use merutable.Prelude.Int.{ℤ, pos, as_signed}
use Prim.Native.String.{String}
use merutable.Prelude.{
  ◌>>=◌, ◌>>◌, Option, ◌∷◌, List, ℕ, MeruError, ◌++◌, ◌≡◌, [], Result, length, some, guard, err, ok,
  ◌+◌, leb, none, ltb, take, if◌then◌else◌, ◌==◌, drop, ◌^◌, ◌-◌,
}

pub record Roaring : Type 1 where
  pub Bitmap : Type 0
  pub new : Bitmap
  pub len : Bitmap → ℕ
  pub serialize_into : Bitmap → Option Bytes
  pub deserialize_from : Bytes → Option Bitmap
  pub deserialize-serialize :
      (bitmap : Bitmap) (bytes : Bytes)
      → serialize_into bitmap ≡ some bytes
      → deserialize_from bytes ≡ some bitmap

abbrev pub puffin_magic : Bytes
puffin_magic = 0x50 ∷ 0x46 ∷ 0x41 ∷ 0x31 ∷ []

abbrev pub dv_magic : Bytes
dv_magic = 0xD1 ∷ 0xD3 ∷ 0x39 ∷ 0x64 ∷ []

pub record PuffinEncoded : Type 0 where
  pub bytes : Bytes
  pub blob_offset : ℤ
  pub blob_length : ℤ

pub record PuffinBlobFields : Type 0 where
  pub referenced_data_file : String
  pub cardinality : ℤ

pub record PuffinBlobMeta : Type 0 where
  pub blob_type : String
  pub fields : PuffinBlobFields
  pub snapshot_id : ℤ
  pub sequence_number : ℤ
  pub offset : ℤ
  pub length_ : ℤ
  pub compression_codec : Option String

-- The footer; `properties` is the empty map wherever a footer is built.
pub record PuffinFooter : Type 0 where
  pub blobs : List PuffinBlobMeta

-- `map_err` of a package's error
abbrev pub or_error {ℓ} : {A : Type ℓ} → MeruError → Option A → Result A
or_error reason none = err reason
or_error reason (some a) = ok a

module _ (crc : Bytes → ℕ) (R : Roaring) where
  -- The 64-bit form: one bitmap, under the key 0
  abbrev pub roaring64 : Bytes → Bytes
  roaring64 roaring32_bytes = to_le_bytes 8 1 ++ (to_le_bytes 4 0 ++ roaring32_bytes)

  -- The blob of `encode_puffin`
  unfoldable pub encode_blob : R.Bitmap → Result Bytes
  encode_blob bitmap = do
    roaring32_bytes ← or_error iceberg (R.serialize_into bitmap)
    let magic_and_data = dv_magic ++ roaring64 roaring32_bytes
    let inner_len = length magic_and_data + 4
    guard (ltb inner_len (2 ^ 32)) iceberg
    ok (to_be_bytes 4 inner_len ++ (magic_and_data ++ to_be_bytes 4 (crc magic_and_data)))

  -- The footer of `encode_puffin`
  abbrev pub footer_of : R.Bitmap → String → ℤ → ℤ → ℤ → PuffinFooter
  footer_of bitmap parquet_path snapshot_id sequence_number blob_length = record {
    blobs =
        record {
          blob_type = "deletion-vector-v1";
          fields = record {
            referenced_data_file = parquet_path;
            cardinality = as_signed 63 (R.len bitmap);
          };
          snapshot_id = snapshot_id;
          sequence_number = sequence_number;
          offset = pos 4;
          length_ = blob_length;
          compression_codec = none;
        }
        ∷ [];
  }

  -- `encode_puffin`
  unfoldable pub encode_puffin :
      (PuffinFooter → Option Bytes) → R.Bitmap → String → ℤ → ℤ → Result PuffinEncoded
  encode_puffin to_string bitmap parquet_path snapshot_id sequence_number = do
    blob_data ← encode_blob bitmap
    let blob_length = as_signed 63 (length blob_data)
    footer_bytes ←
        or_error iceberg
          (to_string (footer_of bitmap parquet_path snapshot_id sequence_number blob_length))
    guard (ltb (length footer_bytes) (2 ^ 31)) iceberg
    ok (record {
      bytes =
          puffin_magic
          ++ (blob_data ++ (footer_bytes ++ (to_le_bytes 4 (length footer_bytes) ++ puffin_magic)));
      blob_offset = pos 4;
      blob_length = blob_length;
    })

  -- The part of `decode_dv_blob` for a count that is not 0
  unfoldable pub decode_one : ℕ → Bytes → Result R.Bitmap
  decode_one bitmap_count roaring64_data = do
    guard (leb bitmap_count 1) corruption
    guard (leb 12 (length roaring64_data)) corruption
    guard (from_le_bytes (take 4 (drop 8 roaring64_data)) == 0) corruption
    or_error corruption (R.deserialize_from (drop 12 roaring64_data))

  -- The part of `decode_dv_blob` that reads the 64-bit form
  unfoldable pub decode_roaring64 : Bytes → Result R.Bitmap
  decode_roaring64 roaring64_data = do
    guard (leb 8 (length roaring64_data)) corruption
    let bitmap_count = from_le_bytes (take 8 roaring64_data)
    if bitmap_count == 0 then ok R.new else decode_one bitmap_count roaring64_data

  -- `decode_dv_blob`, which `from_puffin_blob` calls
  unfoldable pub decode_dv_blob : Bytes → Result R.Bitmap
  decode_dv_blob blob_bytes = do
    guard (leb 12 (length blob_bytes)) corruption
    guard (4 + from_be_bytes (take 4 blob_bytes) == length blob_bytes) corruption
    guard (eq_bytes (take 4 (drop 4 blob_bytes)) dv_magic) corruption
    let crc_offset = length blob_bytes - 4
    guard
        (crc (take (crc_offset - 4) (drop 4 blob_bytes))
          == from_be_bytes (drop crc_offset blob_bytes))
        corruption
    decode_roaring64 (take (crc_offset - 8) (drop 8 blob_bytes))
