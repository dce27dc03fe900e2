-- ===== src/Iceberg/DeletionVector/File/Examples.antt =====
-- A Puffin file of two rows (iceberg/deletion_vector.rs), with a format for the footers of one data file.
use merutable.Bytes.{Bytes, to_be_bytes, to_le_bytes}
use merutable.Iceberg.DeletionVector.{
  Roaring, PuffinBlobMeta, PuffinEncoded, PuffinFooter, encode_blob, encode_puffin,
}
use merutable.Iceberg.DeletionVector.File.{from_puffin_bytes}
use merutable.Iceberg.DeletionVector.File.Whole.{from_puffin_bytes-encode_puffin}
use merutable.Prelude.Int.{ℤ, pos, negsuc}
use merutable.Prelude.Texts.{str_eq, str_eq_iff}
use Prim.Native.String.{String}
use merutable.Prelude.{
  ◌≡◌, List, none, Option, [], ◌<◌, ℕ, length, suc, ◌+◌, refl, ◌∷◌, ◌^◌, some, zero, arith, sym, ap,
  ◌&&◌, Bool, ok, false, true, ◌∙◌,
}

-- Bitmaps as the list of their bytes
abbrev positions : Roaring
positions = record {
  Bitmap = Bytes;
  new = [];
  len = λ b. length b;
  serialize_into = λ b. some b;
  deserialize_from = λ b. some b;
  deserialize-serialize = λ b bytes e. sym e;
}

abbrev zero_sum : Bytes → ℕ
zero_sum b = 0

zero_sum-lt : (b : Bytes) → zero_sum b < 2 ^ 32
zero_sum-lt b = omega arith

abbrev sign_of : ℤ → ℕ
sign_of (pos n) = 0
sign_of (negsuc n) = 1

abbrev size_of : ℤ → ℕ
size_of (pos n) = n
size_of (negsuc n) = n

abbrev signed : ℕ → ℕ → ℤ
signed zero n = pos n
signed (suc s) n = negsuc n

signed-sign_of : (z : ℤ) → signed (sign_of z) (size_of z) ≡ z
signed-sign_of (pos n) = refl
signed-sign_of (negsuc n) = refl

abbrev blob_of : String → String → ℤ → ℤ → ℤ → ℤ → ℤ → Option String → PuffinBlobMeta
blob_of kind path c i s o l codec = record {
  blob_type = kind;
  fields = record { referenced_data_file = path; cardinality = c };
  snapshot_id = i;
  sequence_number = s;
  offset = o;
  length_ = l;
  compression_codec = codec;
}

abbrev only_if : Bool → Bytes → Option Bytes
only_if false bs = none
only_if true bs = some bs

abbrev print_blob : String → String → ℤ → ℤ → ℤ → ℤ → ℤ → Option String → Option Bytes
print_blob kind path c i s o l (some codec) = none
print_blob kind path c i s o l none =
    only_if (str_eq kind "deletion-vector-v1" && str_eq path "a.parquet") (
      sign_of c
      ∷ size_of c
      ∷ sign_of i
      ∷ size_of i
      ∷ sign_of s
      ∷ size_of s
      ∷ sign_of o
      ∷ size_of o
      ∷ sign_of l
      ∷ size_of l
      ∷ [])

abbrev print_blobs : List PuffinBlobMeta → Option Bytes
print_blobs [] = none
print_blobs (m ∷ []) =
    print_blob m.blob_type m.fields.referenced_data_file m.fields.cardinality m.snapshot_id
      m.sequence_number m.offset m.length_ m.compression_codec
print_blobs (m ∷ n ∷ ms) = none

abbrev print_footer : PuffinFooter → Option Bytes
print_footer footer = print_blobs footer.blobs

abbrev at : ℕ → Bytes → ℕ
at n [] = 0
at zero (b ∷ bs) = b
at (suc n) (b ∷ bs) = at n bs

abbrev number : ℕ → Bytes → ℤ
number n bs = signed (at n bs) (at (n + 1) bs)

abbrev parse_blob : Bytes → PuffinBlobMeta
parse_blob bs =
    blob_of "deletion-vector-v1" "a.parquet" (number 0 bs) (number 2 bs) (number 4 bs) (number 6 bs)
      (number 8 bs) none

abbrev parse_footer : Bytes → Option PuffinFooter
parse_footer bs = some (record { blobs = parse_blob bs ∷ [] })

only_if-some : (b : Bool) (x y : Bytes) → only_if b x ≡ some y → (b ≡ true) × (x ≡ y)
only_if-some true x y e = (refl, cc)
only_if-some false x y e = cc

both_true : (a b : Bool) → a && b ≡ true → (a ≡ true) × (b ≡ true)
both_true true b e = (refl, e)
both_true false b e = cc

parse_blob-print :
    (kind path : String) (c i s o l : ℤ) (codec : Option String) (bs : Bytes)
    → print_blob kind path c i s o l codec ≡ some bs
    → parse_blob bs ≡ blob_of kind path c i s o l codec
parse_blob-print kind path c i s o l (some codec) bs e = cc
parse_blob-print kind path c i s o l none bs e =
    let (known, same) =
      only_if-some (str_eq kind "deletion-vector-v1" && str_eq path "a.parquet") _ bs e in
    let (k, p) = both_true (str_eq kind "deletion-vector-v1") _ known in
    let kind_is = (str_eq_iff kind "deletion-vector-v1").0 k in
    let path_is = (str_eq_iff path "a.parquet").0 p in
    ap parse_blob (sym same) ∙ λ j.
    blob_of (sym kind_is j) (sym path_is j) (signed-sign_of c j) (signed-sign_of i j)
      (signed-sign_of s j) (signed-sign_of o j) (signed-sign_of l j) none

parse_footer-print :
    (footer : PuffinFooter) (bs : Bytes)
    → print_footer footer ≡ some bs
    → parse_footer bs ≡ some footer
parse_footer-print footer bs e = ap (λ ms. some (record { blobs = ms })) (go footer.blobs e)
  where
    go : (ms : List PuffinBlobMeta) → print_blobs ms ≡ some bs → parse_blob bs ∷ [] ≡ ms
    go [] e = cc
    go (m ∷ []) e =
        ap (λ b. b ∷ [])
          (parse_blob-print m.blob_type m.fields.referenced_data_file m.fields.cardinality
            m.snapshot_id m.sequence_number m.offset m.length_ m.compression_codec bs e)
    go (m ∷ n ∷ ms) e = cc

abbrev two_rows : Bytes
two_rows = 3 ∷ 7 ∷ []

abbrev stored : PuffinEncoded
stored = record {
  bytes =
      0x50 ∷ 0x46 ∷ 0x41 ∷ 0x31 ∷ 0 ∷ 0 ∷ 0 ∷ 22 ∷ 0xD1 ∷ 0xD3 ∷ 0x39 ∷ 0x64 ∷ 1 ∷ 0 ∷ 0 ∷ 0 ∷ 0 ∷ 0
      ∷ 0 ∷ 0 ∷ 0 ∷ 0 ∷ 0 ∷ 0 ∷ 3 ∷ 7 ∷ 0 ∷ 0 ∷ 0 ∷ 0 ∷ 0 ∷ 2 ∷ 0 ∷ 1 ∷ 0 ∷ 1 ∷ 0 ∷ 4 ∷ 0 ∷ 26 ∷ 10
      ∷ 0 ∷ 0 ∷ 0 ∷ 0x50 ∷ 0x46 ∷ 0x41 ∷ 0x31 ∷ [];
  blob_offset = pos 4;
  blob_length = pos 26;
}

two_rows-printed :
    encode_puffin zero_sum positions print_footer two_rows "a.parquet" (pos 1) (pos 1) ≡ ok stored
unfolding encode_puffin encode_blob to_be_bytes to_le_bytes
two_rows-printed = refl

from_puffin_bytes-encode_puffin_example :
    from_puffin_bytes zero_sum positions parse_footer stored.bytes ≡ ok two_rows
from_puffin_bytes-encode_puffin_example =
    from_puffin_bytes-encode_puffin zero_sum positions zero_sum-lt print_footer parse_footer
      parse_footer-print two_rows "a.parquet" (pos 1) (pos 1) stored two_rows-printed
