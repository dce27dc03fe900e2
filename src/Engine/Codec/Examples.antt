-- ===== src/Engine/Codec/Examples.antt =====
-- Rows through engine/codec.rs, with a format that carries rows of missing values.
use merutable.Bytes.{Bytes}
use merutable.Engine.Codec.{encode_row, decode_row, decode_row-written, as_corruption}
use merutable.Types.Value.{FieldValue, Row}
use merutable.Prelude.{Option, none, some, List, ok, ◌∷◌, [], ◌≡◌, ap, refl, ℕ, ◌≢◌}

abbrev with_byte : ℕ → Option Bytes → Option Bytes
with_byte n none = none
with_byte n (some bs) = some (n ∷ bs)

abbrev write_fields : List (Option FieldValue) → Option Bytes
write_fields [] = some []
write_fields (none ∷ fs) = with_byte 0 (write_fields fs)
write_fields (some v ∷ fs) = none

abbrev read_fields : Bytes → List (Option FieldValue)
read_fields [] = []
read_fields (b ∷ bs) = none ∷ read_fields bs

abbrev write_row : Row → Option Bytes
write_row row = write_fields row.fields

abbrev read_row : Bytes → Option Row
read_row bs = some (record { fields = read_fields bs })

abbrev write_json : Row → Option Bytes
write_json row = with_byte 0x7B (write_row row)

abbrev read_json : Bytes → Option Row
read_json [] = none
read_json (b ∷ bs) = read_row bs

read_fields-write :
    (fs : List (Option FieldValue)) (raw : Bytes)
    → write_fields fs ≡ some raw
    → read_fields raw ≡ fs
read_fields-write [] raw e = let same : raw ≡ [] = cc in rw same refl
read_fields-write (some v ∷ fs) raw e = cc
read_fields-write (none ∷ fs) raw e = go (write_fields fs) (read_fields-write fs) e
  where
    go :
        (out : Option Bytes)
        → ((b : Bytes) → out ≡ some b → read_fields b ≡ fs)
        → with_byte 0 out ≡ some raw
        → read_fields raw ≡ none ∷ fs
    go none back e = cc
    go (some b) back e = let same : raw ≡ 0 ∷ b = cc in rw same (ap (λ l. none ∷ l) (back b refl))

read_row-write : (row : Row) (raw : Bytes) → write_row row ≡ some raw → read_row raw ≡ some row
read_row-write row raw e =
    ap (λ l. some (record { fields = l })) (read_fields-write row.fields raw e)

json_brace :
    (row : Row) (raw : Bytes)
    → write_json row ≡ some raw
    → (rest : Bytes) × (write_row row ≡ some rest) × (raw ≡ 0x7B ∷ rest)
json_brace row raw e = go (write_row row) e
  where
    go :
        (out : Option Bytes)
        → with_byte 0x7B out ≡ some raw
        → (rest : Bytes) × (out ≡ some rest) × (raw ≡ 0x7B ∷ rest)
    go none e = cc
    go (some b) e = (b, refl, cc)

starts_with_brace :
    (row : Row) (raw : Bytes) → write_json row ≡ some raw → (rest : Bytes) × (raw ≡ 0x7B ∷ rest)
starts_with_brace row raw e = let (rest, found, same) = json_brace row raw e in (rest, same)

abbrev two_nulls : Row
two_nulls = record { fields = none ∷ none ∷ [] }

two_nulls_encoded : encode_row write_row two_nulls ≡ ok (1 ∷ 0 ∷ 0 ∷ [])
unfolding encode_row
two_nulls_encoded = refl

abbrev nulls_bytes : Bytes
nulls_bytes = 1 ∷ 0 ∷ 0 ∷ []

abbrev nulls_json : Bytes
nulls_json = 0x7B ∷ 0 ∷ 0 ∷ []

decode_row-written_example :
    (decode_row read_row read_json nulls_bytes ≡ ok two_nulls)
    × (nulls_bytes ≢ [])
    × (nulls_bytes ≢ nulls_json)
    × (decode_row read_row read_json nulls_json ≡ as_corruption (read_json nulls_json))
decode_row-written_example =
    decode_row-written write_row write_json read_row read_json read_row-write starts_with_brace
      two_nulls two_nulls nulls_bytes nulls_json two_nulls_encoded refl
