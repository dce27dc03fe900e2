-- ===== src/Types/Row/Pad.antt =====
-- Padding gives a row that is valid under the schema.
use merutable.Types.Row.{
  check_value, check_field, check_fields, validate, default_of, is_none, pad_columns,
  pad_with_defaults,
}
use merutable.Types.Value.{FieldValue, Row}
use merutable.Types.Schema.{ColumnDef, TableSchema}
use merutable.Prelude.{
  panic, false, true, All, Result, List, guard, ◌≡◌, Option, some, length, ◌>>◌, not, ◌<◌, ◌≤◌, ok,
  ◌&&◌, err, ◌∷◌, drop, schema_mismatch, ◌++◌, refl, Bool, ◌>>=◌, >>=-eq-ok, ap, arith, suc, [],
  none, ℕ, leb, ◌==◌,
}

-- The default of a column is a value of its type.
abbrev pub FitsDefault : ColumnDef → Type 0
FitsDefault c = (v : FieldValue) → default_of c ≡ some v → check_value v c.col_type ≡ ok tt

then_ok :
    {A : Type 0} (first : Result (Unit {0})) (next : Result A) {a : A}
    → (first >> next) ≡ ok a
    → (first ≡ ok tt) × (next ≡ ok a)
then_ok (ok done) next h = (refl, h)
then_ok (err e) next h = cc
then_ok panic next h = cc

default_checks :
    (c : ColumnDef)
    → FitsDefault c
    → guard (not (is_none (default_of c) && not c.nullable)) schema_mismatch ≡ ok tt
    → check_field (default_of c) c ≡ ok tt
unfolding check_field
default_checks c fits h = go (default_of c) refl
  where
    go : (o : Option FieldValue) → default_of c ≡ o → check_field (default_of c) c ≡ ok tt
    go (some v) e = rw (e, check_field) (fits v e)
    go none e = rw (e, check_field) (allowed c.nullable (rw e at h))
      where
        allowed :
            (b : Bool)
            → guard (not (true && not b)) schema_mismatch ≡ ok tt
            → guard b schema_mismatch ≡ ok tt
        allowed true p = refl
        allowed false p = cc

pad_columns-check_fields :
    (cs : List ColumnDef) (fills : List (Option FieldValue))
    → All FitsDefault cs
    → pad_columns cs ≡ ok fills
    → (check_fields fills cs ≡ ok tt) × (length fills ≡ length cs)
unfolding pad_columns check_fields
pad_columns-check_fields [] fills a h =
    let none_pushed : [] ≡ fills = cc in rw (← none_pushed) (refl, refl)
pad_columns-check_fields (c ∷ cs) fills a h =
    let (allowed, h') = then_ok _ _ h in
    let (rest, padded, built) = >>=-eq-ok (pad_columns cs) _ h' in
    let (checked, long) = pad_columns-check_fields cs rest a.1 padded in
    let whole : default_of c ∷ rest ≡ fills = cc in
    rw (← whole) (rw (default_checks c a.0 allowed) checked, ap suc long)

padded_fields :
    (fs fills : List (Option FieldValue)) (cs : List ColumnDef)
    → All FitsDefault cs
    → length fs ≤ length cs
    → check_fields fs cs ≡ ok tt
    → pad_columns (drop (length fs) cs) ≡ ok fills
    → (check_fields (fs ++ fills) cs ≡ ok tt) × (length (fs ++ fills) ≡ length cs)
unfolding check_fields
padded_fields [] fills cs a l h p = pad_columns-check_fields cs fills a p
padded_fields (f ∷ fs) fills [] a l h p = absurd (omega arith)
padded_fields (f ∷ fs) fills (c ∷ cs) a l h p =
    let (first, rest) = then_ok (check_field f c) (check_fields fs cs) h in
    let (checked, long) = padded_fields fs fills cs a.1 (omega arith) rest p in
    (rw first checked, ap suc long)

-- A row that is shorter than the schema, whose fields pass the checks of their columns, is valid once
-- `pad_with_defaults` has taken it, where the defaults of the schema are values of their columns.
pub validate-pad_with_defaults :
    (r r' : Row) (s : TableSchema)
    → All FitsDefault s.columns
    → length r.fields < length s.columns
    → check_fields r.fields s.columns ≡ ok tt
    → pad_with_defaults r s ≡ ok r'
    → validate r' s ≡ ok tt
unfolding validate pad_with_defaults
validate-pad_with_defaults r r' s a l h p =
    let (fills, padded, built) =
      >>=-eq-ok (pad_columns (drop (length r.fields) s.columns)) _ (opened p) in
    let (checked, long) = padded_fields r.fields fills s.columns a (omega arith) h padded in
    let whole : record { fields = r.fields ++ fills } ≡ r' = cc in
    rw (← whole) (rw (test long) checked)
  where
    short : (m n : ℕ) → m < n → leb n m ≡ false
    short m n k = ground (arith, k)

    opened :
        pad_with_defaults r s ≡ ok r'
        → (pad_columns (drop (length r.fields) s.columns) >>= λ fills.
            ok (record { fields = r.fields ++ fills }))
          ≡ ok r'
    opened q = rw (short (length r.fields) (length s.columns) l, pad_with_defaults) at q

    test : {m n : ℕ} → m ≡ n → m == n ≡ true
    test e = ground (arith, e)
