-- ===== src/Engine/Codec.antt =====
-- engine/codec.rs: the bytes of a row in the log. The formats of the packages postcard and serde_json
-- are parameters, with `none` for their errors.
mod Examples
use merutable.Bytes.{Bytes}
use merutable.Prelude.MeruError.{invalid_argument, corruption}
use merutable.Types.Value.{Row}
use merutable.Prelude.{
  Option, Result, none, some, ok, err, ◌∷◌, [], ◌≡◌, ◌≢◌, ◌==◌, if◌then◌else◌, ap, ℕ, refl, ◌⊎◌,
  inl, inr, sym, ◌∙◌, length, arith,
}

-- `POSTCARD_MARKER`
abbrev postcard_marker : ℕ
postcard_marker = 1

-- `encode_row`
unfoldable pub encode_row : (Row → Option Bytes) → Row → Result Bytes
encode_row to_allocvec row = elim (to_allocvec row) [
  | none ↦ err invalid_argument
  | some raw ↦ ok (postcard_marker ∷ raw)
]

-- `map_err`
abbrev pub as_corruption : Option Row → Result Row
as_corruption none = err corruption
as_corruption (some row) = ok row

-- `decode_row`
unfoldable pub decode_row : (Bytes → Option Row) → (Bytes → Option Row) → Bytes → Result Row
decode_row from_bytes from_slice [] = ok (record { fields = [] })
decode_row from_bytes from_slice (b ∷ bs) =
    if b == postcard_marker
    then as_corruption (from_bytes bs)
    else as_corruption (from_slice (b ∷ bs))

abbrev head_or : ℕ → Bytes → ℕ
head_or n [] = n
head_or n (b ∷ bs) = b

module _ (to_allocvec : Row → Option Bytes) (to_vec : Row → Option Bytes)
    (from_bytes from_slice : Bytes → Option Row)
    (postcard-back : (row : Row) (raw : Bytes)
      → to_allocvec row ≡ some raw
      → from_bytes raw ≡ some row)
    (json-brace : (row : Row) (raw : Bytes)
      → to_vec row ≡ some raw
      → (rest : Bytes) × (raw ≡ 0x7B ∷ rest)) where
  marked :
      (row : Row) (bytes : Bytes)
      → encode_row to_allocvec row ≡ ok bytes
      → (raw : Bytes) × (to_allocvec row ≡ some raw) × (bytes ≡ postcard_marker ∷ raw)
  unfolding encode_row
  marked row bytes h = go (to_allocvec row) h
    where
      go :
          (out : Option Bytes)
          → (elim out [ none ↦ err invalid_argument | some r ↦ ok (postcard_marker ∷ r) ])
            ≡ ok bytes
          → (raw : Bytes) × (out ≡ some raw) × (bytes ≡ postcard_marker ∷ raw)
      go none e = cc
      go (some r) e = (r, refl, cc)

  -- Rows in the two formats are told apart: a row that `encode_row` encodes is decoded to itself, its
  -- bytes are neither empty nor those of any row in JSON, and the bytes of a row in JSON go to the
  -- parser of JSON, whose failure is an error of corruption. The package postcard decodes what it
  -- encodes, and the JSON of a row begins with a brace.
  pub decode_row-written :
      (row other : Row) (bytes json : Bytes)
      → encode_row to_allocvec row ≡ ok bytes
      → to_vec other ≡ some json
      → (decode_row from_bytes from_slice bytes ≡ ok row)
        × (bytes ≢ [])
        × (bytes ≢ json)
        × (decode_row from_bytes from_slice json ≡ as_corruption (from_slice json))
  unfolding decode_row
  decode_row-written row other bytes json h j =
      let (raw, found, same) = marked row bytes h in
      let (rest, brace) = json-brace other json j in
      (
        rw same (ap as_corruption (postcard-back row raw found)),
        (λ e. let no_bytes = ap length (sym same ∙ e) in omega (arith, no_bytes)),
        (λ e. let heads = ap (head_or 0) (sym same ∙ e ∙ brace) in omega (arith, heads)),
        rw brace refl,
      )
