-- ===== src/Types/Examples.antt =====
-- The counter (types/sequence.rs) with three writers, and a row (types/value.rs) that is padded.
use merutable.Prelude.{none, some, ok, false, refl, ◌≡◌, List, arith, ◌∷◌, []}
use merutable.Prelude.Int.{pos}
use merutable.Types.Value.{FieldValue}
use merutable.Types.Schema.{ColumnType, ColumnDef, TableSchema}
use merutable.Types.Row.{check_value, check_fields, validate, pad_columns, pad_with_defaults}
use merutable.Types.Row.Pad.{FitsDefault, validate-pad_with_defaults}
use merutable.Types.Sequence.Allocation.{
  SeqCall, one, many, reserved, Ascending, reserved-Ascending,
}

abbrev three_writers : List SeqCall
three_writers = many 3 ∷ one ∷ many 2 ∷ []

reserved-Ascending_example : Ascending (reserved 5 three_writers)
reserved-Ascending_example =
    reserved-Ascending 5 three_writers (omega arith, (omega arith, (omega arith, tt)))

abbrev counted : ColumnDef
counted = record {
  name = "n";
  col_type = ColumnType.int32;
  nullable = false;
  field_id = none;
  initial_default = none;
  write_default = some (FieldValue.int32 (pos 7));
}

abbrev one_column : TableSchema
one_column = record {
  table_name = "t";
  columns = counted ∷ [];
  primary_key = 0 ∷ [];
  schema_id = 0;
  last_column_id = 1;
}

counted-FitsDefault : FitsDefault counted
unfolding check_value
counted-FitsDefault v e = let same : FieldValue.int32 (pos 7) ≡ v = cc in rw (← same)

padded :
    pad_with_defaults (record { fields = [] }) one_column
    ≡ ok (record { fields = some (FieldValue.int32 (pos 7)) ∷ [] })
unfolding pad_with_defaults pad_columns
padded = refl

nothing_checked : check_fields [] one_column.columns ≡ ok tt
unfolding check_fields
nothing_checked = refl

validate-pad_with_defaults_example :
    validate (record { fields = some (FieldValue.int32 (pos 7)) ∷ [] }) one_column ≡ ok tt
validate-pad_with_defaults_example =
    validate-pad_with_defaults (record { fields = [] })
      (record { fields = some (FieldValue.int32 (pos 7)) ∷ [] }) one_column
      (counted-FitsDefault, tt) (omega arith) nothing_checked padded
