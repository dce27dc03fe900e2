-- ===== src/Types/Schema.antt =====
-- types/schema.rs: the table schema.
use Prim.Native.String.{String}
use merutable.Prelude.{ℕ, Bool, Option, List, get_elem?, none, some, Result, ok, panic}
use merutable.Types.Value.{ℤ, FieldValue}

pub data ColumnType : Type 0 where
  boolean int32 int64 float double byte_array : ColumnType
  fixed_len_byte_array : ℤ → ColumnType

pub record ColumnDef : Type 0 where
  pub name : String
  pub col_type : ColumnType
  pub nullable : Bool
  pub field_id : Option ℕ
  pub initial_default : Option FieldValue
  pub write_default : Option FieldValue

pub record TableSchema : Type 0 where
  pub table_name : String
  pub columns : List ColumnDef
  pub primary_key : List ℕ
  pub schema_id : ℕ
  pub last_column_id : ℕ

-- `schema.columns[idx].col_type`, which panics out of bounds
abbrev pub col_type_at : TableSchema → ℕ → Result ColumnType
col_type_at s i = elim (get_elem? s.columns i) [ none ↦ panic | some c ↦ ok c.col_type ]
