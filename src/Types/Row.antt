-- ===== src/Types/Row.antt =====
-- `Row::validate` and `Row::pad_with_defaults` (types/value.rs): what a write must satisfy.
pub mod Pad
use merutable.Types.Value.{FieldValue, Row}
use merutable.Types.Schema.{ColumnType, ColumnDef, TableSchema}
use merutable.Prelude.Int.{as_usize}
use merutable.Prelude.{
  Option, List, Result, ok, if◌then◌else◌, Bool, some, guard, length, leb, schema_mismatch, true,
  ◌∷◌, false, ◌==◌, ◌>>◌, none, drop, ◌>>=◌, not, err, [], ◌++◌, ◌&&◌,
}

-- The `matches!` of `validate`, and its check of a fixed length
unfoldable pub check_value : FieldValue → ColumnType → Result (Unit {0})
check_value (FieldValue.boolean b) ColumnType.boolean = ok tt
check_value (FieldValue.int32 v) ColumnType.int32 = ok tt
check_value (FieldValue.int64 v) ColumnType.int64 = ok tt
check_value (FieldValue.float v) ColumnType.float = ok tt
check_value (FieldValue.double v) ColumnType.double = ok tt
check_value (FieldValue.bytes b) ColumnType.byte_array = ok tt
check_value (FieldValue.bytes b) (ColumnType.fixed_len_byte_array n) =
    guard (length b == as_usize n) schema_mismatch
check_value _ _ = err schema_mismatch

-- One round of the loop of `validate`
unfoldable pub check_field : Option FieldValue → ColumnDef → Result (Unit {0})
check_field none col = guard col.nullable schema_mismatch
check_field (some fv) col = check_value fv col.col_type

-- The `zip` loop of `validate`
unfoldable pub check_fields : List (Option FieldValue) → List ColumnDef → Result (Unit {0})
check_fields [] cols = ok tt
check_fields (f ∷ fs) [] = ok tt
check_fields (f ∷ fs) (c ∷ cs) = check_field f c >> check_fields fs cs

-- `Row::validate`
unfoldable pub validate : Row → TableSchema → Result (Unit {0})
validate r schema =
    guard (length r.fields == length schema.columns) schema_mismatch
    >> check_fields r.fields schema.columns

-- `write_default.or_else(initial_default)`
abbrev pub default_of : ColumnDef → Option FieldValue
default_of col = elim col.write_default [ some v ↦ some v | none ↦ col.initial_default ]

abbrev pub is_none : Option FieldValue → Bool
is_none none = true
is_none (some v) = false

-- The loop of `pad_with_defaults` over the columns that the row lacks: what it pushes
unfoldable pub pad_columns : List ColumnDef → Result (List (Option FieldValue))
pad_columns [] = ok []
pad_columns (c ∷ cs) = do
  guard (not (is_none (default_of c) && not c.nullable)) schema_mismatch
  fills ← pad_columns cs
  ok (default_of c ∷ fills)

-- `Row::pad_with_defaults`; a row that it fails on is not used any more
unfoldable pub pad_with_defaults : Row → TableSchema → Result Row
pad_with_defaults r schema =
    if leb (length schema.columns) (length r.fields)
    then ok r
    else (pad_columns (drop (length r.fields) schema.columns) >>= λ fills.
        ok (record { fields = r.fields ++ fills }))
