-- ===== src/Types/Value.antt =====
-- types/value.rs: field values and rows. A float is its IEEE-754 bit pattern.
pub use merutable.Prelude.Int.{ℤ}
use merutable.Prelude.{
  ℕ, Bool, Option, none, some, List, [], ◌∷◌, get_elem?, Result, ok, err, invalid_argument, ◌>>=◌,
}
use merutable.Bytes.{Bytes}

pub data FieldValue : Type 0 where
  boolean : Bool → FieldValue
  int32 int64 : ℤ → FieldValue
  float double : ℕ → FieldValue
  bytes : Bytes → FieldValue

pub record Row : Type 0 where
  pub fields : List (Option FieldValue)

-- `fields.get(idx).and_then(Option::as_ref)`, of `Row::get` and `Row::pk_values`
abbrev pub field_at : List (Option FieldValue) → ℕ → Option FieldValue
field_at fs i = elim (get_elem? fs i) [ some (some v) ↦ some v | _ ↦ none ]

-- `Row::pk_values`: an error if a primary key field is NULL or missing
unfoldable pub pk_values : Row → List ℕ → Result (List FieldValue)
pk_values r [] = ok []
pk_values r (i ∷ is) = elim (field_at r.fields i) [
  | none ↦ err invalid_argument
  | some v ↦ (do vs ← pk_values r is; ok (v ∷ vs))
]
