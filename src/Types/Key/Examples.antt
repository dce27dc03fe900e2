-- ===== src/Types/Key/Examples.antt =====
-- Runs of the key encoding (types/key.rs) on concrete keys, and the theorems about it at them.
use Prim.Native.Nat.{ℕ}
use merutable.Prelude.Int.{pos, negsuc}
use merutable.Types.Schema.{ColumnDef, ColumnType, TableSchema}
use merutable.Types.Key.Fields.{IsValue}
use merutable.Types.Key.Order.{encode_pk_fields-prefix_free, cmp-encode, seek_latest-first}
use merutable.Types.Key.Decode.{decode-encode, user_key_bytes-encode}
use merutable.Types.Key.Decode.Fields.{decode_field-float_ne}
use merutable.Types.Key.{
  InternalKey, encode, seek_latest, decode, cmp, encode_user_key, user_key_bytes, encode_field,
  escape_byte_array, decode_field, encode_pk_fields, encode_pk_loop, encode_tag,
  order_preserving_f32, flip_float,
}
use merutable.Types.Sequence.{put, OpType, seqnum_max}
use merutable.Prelude.{List, ◌∷◌, All, ◌≡◌, [], lt, ok, gt, ◌≢◌, false, arith, none, refl}
use merutable.Types.Value.{FieldValue}
use merutable.Bytes.{to_be_bytes, Bytes}

abbrev column : ColumnType → ColumnDef
column t = record {
  name = "c";
  col_type = t;
  nullable = false;
  field_id = none;
  initial_default = none;
  write_default = none;
}

-- Two columns of the primary key: an integer and a string.
abbrev table : TableSchema
table = record {
  table_name = "t";
  columns = column ColumnType.int64 ∷ column ColumnType.byte_array ∷ [];
  primary_key = 0 ∷ 1 ∷ [];
  schema_id = 0;
  last_column_id = 2;
}

abbrev one_row : List FieldValue
one_row = FieldValue.int64 (pos 7) ∷ FieldValue.bytes (1 ∷ 0 ∷ []) ∷ []

abbrev other_row : List FieldValue
other_row = FieldValue.int64 (negsuc 0) ∷ FieldValue.bytes [] ∷ []

abbrev one_bytes : Bytes
one_bytes =
    128 ∷ 0 ∷ 0 ∷ 0 ∷ 0 ∷ 0 ∷ 0 ∷ 7 ∷ 1 ∷ 0 ∷ 255 ∷ 0 ∷ 0 ∷ 255 ∷ 255 ∷ 255 ∷ 255 ∷ 255 ∷ 255 ∷ 250
    ∷ 1 ∷ []

abbrev one_key : InternalKey
one_key = record { encoded = one_bytes; seq = 5; op_type = put; pk_values = one_row }

abbrev other_key : InternalKey
other_key = record {
  encoded =
      127 ∷ 255 ∷ 255 ∷ 255 ∷ 255 ∷ 255 ∷ 255 ∷ 255 ∷ 0 ∷ 0 ∷ 255 ∷ 255 ∷ 255 ∷ 255 ∷ 255 ∷ 255
      ∷ 255 ∷ 0 ∷ [];
  seq = 0;
  op_type = OpType.delete;
  pk_values = other_row;
}

abbrev sought_key : InternalKey
sought_key = record {
  encoded =
      128 ∷ 0 ∷ 0 ∷ 0 ∷ 0 ∷ 0 ∷ 0 ∷ 7 ∷ 1 ∷ 0 ∷ 255 ∷ 0 ∷ 0 ∷ 0 ∷ 0 ∷ 0 ∷ 0 ∷ 0 ∷ 0 ∷ 0 ∷ 1 ∷ [];
  seq = seqnum_max;
  op_type = put;
  pk_values = one_row;
}

one_encoded : encode one_row 5 put table ≡ ok one_key
unfolding encode encode_pk_fields encode_pk_loop encode_field escape_byte_array encode_tag
    to_be_bytes
one_encoded = refl

other_encoded : encode other_row 0 OpType.delete table ≡ ok other_key
unfolding encode encode_pk_fields encode_pk_loop encode_field escape_byte_array encode_tag
    to_be_bytes
other_encoded = refl

sought_encoded : seek_latest one_row table ≡ ok sought_key
unfolding seek_latest encode encode_pk_fields encode_pk_loop encode_field escape_byte_array
    encode_tag to_be_bytes
sought_encoded = refl

one_values : All IsValue one_row
one_values = (omega arith, ((omega arith, (omega arith, tt)), tt))

other_values : All IsValue other_row
other_values = (omega arith, (tt, tt))

cmp-encode_example : cmp one_key other_key ≡ gt
cmp-encode_example =
    cmp-encode table one_row other_row 5 0 put OpType.delete one_key other_key one_values
      other_values one_encoded other_encoded

seek_latest-first_example : cmp sought_key one_key ≡ lt
seek_latest-first_example =
    seek_latest-first table one_row 5 put sought_key one_key one_values (omega arith) sought_encoded
      one_encoded

decode-encode_example : decode one_bytes table ≡ ok one_key
decode-encode_example =
    decode-encode table one_row 5 put one_key one_values (tt, (tt, tt)) one_encoded

user_key_bytes-encode_example : encode_user_key one_row table ≡ ok (user_key_bytes one_key)
user_key_bytes-encode_example = user_key_bytes-encode one_row 5 put table one_key one_encoded

-- 1.0f32
abbrev one_float : ℕ
one_float = 0x3f80_0000

float_encoded :
    encode_field (FieldValue.float one_float) ColumnType.float ≡ ok (0xbf ∷ 0x80 ∷ 0 ∷ 0 ∷ [])
unfolding encode_field order_preserving_f32 flip_float to_be_bytes
float_encoded = refl

decode_field-float_ne_example :
    (w : FieldValue) × (n : ℕ) × (decode_field (0xbf ∷ 0x80 ∷ 0 ∷ 0 ∷ []) ColumnType.float
      ≡ ok (w, n))
    × (w ≢ FieldValue.float one_float)
decode_field-float_ne_example =
    decode_field-float_ne ColumnType.float (FieldValue.float one_float) (0xbf ∷ 0x80 ∷ 0 ∷ 0 ∷ [])
      [] (omega arith) (λ x. x) float_encoded

abbrev one_user : Bytes
one_user = 128 ∷ 0 ∷ 0 ∷ 0 ∷ 0 ∷ 0 ∷ 0 ∷ 7 ∷ 1 ∷ 0 ∷ 255 ∷ 0 ∷ 0 ∷ []

one_user_encoded : encode_pk_fields one_row table ≡ ok one_user
unfolding encode_pk_fields encode_pk_loop encode_field escape_byte_array to_be_bytes
one_user_encoded = refl

encode_pk_fields-prefix_free_example : one_user ≡ one_user
encode_pk_fields-prefix_free_example =
    encode_pk_fields-prefix_free table one_row one_row one_user one_user [] [] one_values one_values
      one_user_encoded one_user_encoded refl
