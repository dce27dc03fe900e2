-- ===== src/Iceberg/DeletionVector/Examples.antt =====
-- A deletion vector of two rows through its Puffin file (iceberg/deletion_vector.rs).
use merutable.Bytes.{Bytes, to_be_bytes, to_le_bytes}
use merutable.Iceberg.DeletionVector.{
  Roaring, PuffinEncoded, PuffinFooter, encode_blob, encode_puffin, decode_dv_blob,
}
use merutable.Iceberg.DeletionVector.RoundTrip.{encode_puffin-range}
use merutable.Prelude.Int.{pos}
use merutable.Prelude.{
  ◌≡◌, ◌<◌, ◌∷◌, Option, [], ℕ, ok, ◌^◌, some, ◌+◌, length, sym, arith, ◌≤◌, refl, take, drop,
}

-- Bitmaps as the list of their bytes
abbrev positions : Roaring
positions = record {
  Bitmap = Bytes;
  new = [];
  len = λ b. length b;
  serialize_into = λ b. some b;
  deserialize_from = λ b. some b;
  deserialize-serialize = λ b bytes e. sym e;
}

abbrev no_sum : Bytes → ℕ
no_sum b = 0

no_sum-lt : (b : Bytes) → no_sum b < 2 ^ 32
no_sum-lt b = omega arith

abbrev braces : PuffinFooter → Option Bytes
braces footer = some (0x7B ∷ 0x7D ∷ [])

abbrev two_rows : Bytes
two_rows = 3 ∷ 7 ∷ []

abbrev stored : PuffinEncoded
stored = record {
  bytes =
      0x50 ∷ 0x46 ∷ 0x41 ∷ 0x31 ∷ 0 ∷ 0 ∷ 0 ∷ 22 ∷ 0xD1 ∷ 0xD3 ∷ 0x39 ∷ 0x64 ∷ 1 ∷ 0 ∷ 0 ∷ 0 ∷ 0 ∷ 0
      ∷ 0 ∷ 0 ∷ 0 ∷ 0 ∷ 0 ∷ 0 ∷ 3 ∷ 7 ∷ 0 ∷ 0 ∷ 0 ∷ 0 ∷ 0x7B ∷ 0x7D ∷ 2 ∷ 0 ∷ 0 ∷ 0 ∷ 0x50 ∷ 0x46
      ∷ 0x41 ∷ 0x31 ∷ [];
  blob_offset = pos 4;
  blob_length = pos 26;
}

two_rows-stored :
    encode_puffin no_sum positions braces two_rows "a.parquet" (pos 1) (pos 1) ≡ ok stored
unfolding encode_puffin encode_blob to_be_bytes to_le_bytes
two_rows-stored = refl

encode_puffin-range_example :
    (start size : ℕ) × (pos 4 ≡ pos start)
    × (pos 26 ≡ pos size)
    × (start + size ≤ length stored.bytes)
    × (decode_dv_blob no_sum positions (take size (drop start stored.bytes)) ≡ ok two_rows)
encode_puffin-range_example =
    encode_puffin-range no_sum positions no_sum-lt braces two_rows "a.parquet" (pos 1) (pos 1)
      stored two_rows-stored
