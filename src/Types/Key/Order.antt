-- ===== src/Types/Key/Order.antt =====
-- The order of encoded keys: the invariant that the module states at its top.
use merutable.Types.Value.{FieldValue}
use merutable.Types.Schema.{ColumnType, TableSchema, col_type_at}
use merutable.Types.Sequence.{SeqNum, OpType, seqnum_max, op_byte}
use merutable.Types.Key.{
  InternalKey, encode_field, encode_pk_loop, encode_pk_fields, encode_tag, encode, seek_latest, cmp,
  put,
}
use merutable.Types.Key.Fields.{IsValue, cmp_value, cmp_bytes-encode_field}
use merutable.Types.Key.Tag.{tag_of, encode_tag-eq-ok, cmp_bytes-tag}
use merutable.Bytes.{Bytes, cmp_bytes, to_be_bytes}
use merutable.Prelude.Int.{ℤ, pos, negsuc, cmp_ℤ}
use merutable.Bytes.Order.{cmp_bytes_refl, eq_of_cmp_bytes}
use merutable.Prelude.{
  gt, [], refl, compare_refl, compare-lt, List, Ordering, ℕ, ◌≡◌, All, ◌<◌, length, eq, ◌∷◌, ok,
  ◌≤◌, >>=-eq-ok, then_cmp, ◌++◌, lt, arith, compare, ◌∙◌, ap, append_assoc, sym, then_cmp_assoc,
  append-nil,
}

-- Primary keys compare column by column.
abbrev pub cmp_pk : List FieldValue → List FieldValue → Ordering
cmp_pk [] ws = eq
cmp_pk (v ∷ vs) [] = eq
cmp_pk (v ∷ vs) (w ∷ ws) = then_cmp (cmp_value v w) (cmp_pk vs ws)

-- One round of the loop, taken apart.
pub encode_pk_loop-cons :
    (v : FieldValue) (vs : List FieldValue) (i : ℕ) (is : List ℕ) (s : TableSchema) (b : Bytes)
    → encode_pk_loop (v ∷ vs) (i ∷ is) s ≡ ok b
    → (t : ColumnType) × (x : Bytes) × (y : Bytes) × (col_type_at s i ≡ ok t)
      × (encode_field v t ≡ ok x)
      × (encode_pk_loop vs is s ≡ ok y)
      × (b ≡ x ++ y)
unfolding encode_pk_loop
encode_pk_loop-cons v vs i is s b h =
    let (t, ht, k) = >>=-eq-ok (col_type_at s i) _ h in
    let (x, hx, l) = >>=-eq-ok (encode_field v t) _ k in
    let (y, hy, m) = >>=-eq-ok (encode_pk_loop vs is s) _ l in (t, x, y, ht, hx, hy, cc)

cmp_bytes-encode_pk_loop :
    (vs ws : List FieldValue) (is : List ℕ) (s : TableSchema) (b c r q : Bytes)
    → All IsValue vs
    → All IsValue ws
    → length vs ≡ length is
    → length ws ≡ length is
    → encode_pk_loop vs is s ≡ ok b
    → encode_pk_loop ws is s ≡ ok c
    → cmp_bytes (b ++ r) (c ++ q) ≡ then_cmp (cmp_pk vs ws) (cmp_bytes r q)
cmp_bytes-encode_pk_loop [] [] is s b c r q hv hw lv lw e f =
    unfold encode_pk_loop in (let p : b ≡ [] = cc in let o : c ≡ [] = cc in rw (p, o))
cmp_bytes-encode_pk_loop [] (w ∷ ws) is s b c r q hv hw lv lw e f = absurd (omega arith)
cmp_bytes-encode_pk_loop (v ∷ vs) [] is s b c r q hv hw lv lw e f = absurd (omega arith)
cmp_bytes-encode_pk_loop (v ∷ vs) (w ∷ ws) [] s b c r q hv hw lv lw e f = absurd (omega arith)
cmp_bytes-encode_pk_loop (v ∷ vs) (w ∷ ws) (i ∷ is) s b c r q hv hw lv lw e f =
    let (t, x, y, ht, hx, hy, eb) = encode_pk_loop-cons v vs i is s b e in
    let (t', x', y', ht', hx', hy', ec) = encode_pk_loop-cons w ws i is s c f in
    let same : t' ≡ t = cc in
    let hx'' : encode_field w t ≡ ok x' = rw same at hx' in
    rw (eb, ec, append_assoc x y r, append_assoc x' y' q)
      (cmp_bytes-encode_field t v w x x' (y ++ r) (y' ++ q) hv.0 hw.0 hx hx''
        ∙ ap (then_cmp (cmp_value v w)) (
            cmp_bytes-encode_pk_loop vs ws is s y y' r q hv.1 hw.1 (omega arith) (omega arith) hy
              hy')
        ∙ sym (then_cmp_assoc (cmp_value v w) (cmp_pk vs ws) (cmp_bytes r q)))

-- What `encode_pk_fields` accepts.
pub encode_pk_fields-eq-ok :
    (pk : List FieldValue) (s : TableSchema) (b : Bytes)
    → encode_pk_fields pk s ≡ ok b
    → (length pk ≡ length s.primary_key) × (encode_pk_loop pk s.primary_key s ≡ ok b)
unfolding encode_pk_fields
encode_pk_fields-eq-ok pk s b h = ground arith

-- What `encode` accepts, and the key that it returns.
pub record Encodes (pk : List FieldValue) (seq : SeqNum) (op : OpType) (s : TableSchema)
    (k : InternalKey) : Type 0 where
  pub user : Bytes
  pub user_ok : encode_pk_fields pk s ≡ ok user
  pub arity : length pk ≡ length s.primary_key
  pub fields : encode_pk_loop pk s.primary_key s ≡ ok user
  pub bound : seq ≤ seqnum_max
  pub split : k.encoded ≡ user ++ to_be_bytes 8 (tag_of seq op)
  pub whole : k ≡ record {
    encoded = user ++ to_be_bytes 8 (tag_of seq op);
    seq = seq;
    op_type = op;
    pk_values = pk;
  }

pub encode-eq-ok :
    (pk : List FieldValue) (seq : SeqNum) (op : OpType) (s : TableSchema) (k : InternalKey)
    → encode pk seq op s ≡ ok k
    → Encodes pk seq op s k
unfolding encode
encode-eq-ok pk seq op s k h =
    let (user, hu, h') = >>=-eq-ok (encode_pk_fields pk s) _ h in
    let (tag, ht, h'') = >>=-eq-ok (encode_tag seq op) _ h' in
    let (arity, fields) = encode_pk_fields-eq-ok pk s user hu in
    let (bound, written) = encode_tag-eq-ok seq op tag ht in
    record {
      user = user;
      user_ok = hu;
      arity = arity;
      fields = fields;
      bound = bound;
      split = ground (arith, h'', written);
      whole = ground (arith, h'', written);
    }

then_cmp-eq : (a b : Ordering) → then_cmp a b ≡ eq → a ≡ eq
then_cmp-eq lt b h = cc
then_cmp-eq eq b h = refl
then_cmp-eq gt b h = cc

-- The user keys that one schema gives are free of prefixes: if two of them have continuations that
-- are the same bytes, they are the same. The values are such as their types can hold.
pub encode_pk_fields-prefix_free :
    (s : TableSchema) (pk pk' : List FieldValue) (u w x y : Bytes)
    → All IsValue pk
    → All IsValue pk'
    → encode_pk_fields pk s ≡ ok u
    → encode_pk_fields pk' s ≡ ok w
    → u ++ x ≡ w ++ y
    → u ≡ w
encode_pk_fields-prefix_free s pk pk' u w x y hv hw e f same =
    let equal =
      then_cmp-eq (cmp_pk pk pk') (cmp_bytes x y)
        (sym (order x y) ∙ ap (λ z. cmp_bytes z (w ++ y)) same ∙ cmp_bytes_refl (w ++ y)) in
    sym (append-nil u)
    ∙ eq_of_cmp_bytes (u ++ []) (w ++ []) (order [] [] ∙ rw equal (unfold cmp_bytes in refl))
    ∙ append-nil w
  where
    order : (r q : Bytes) → cmp_bytes (u ++ r) (w ++ q) ≡ then_cmp (cmp_pk pk pk') (cmp_bytes r q)
    order r q =
        let (la, ea) = encode_pk_fields-eq-ok pk s u e in
        let (lb, eb) = encode_pk_fields-eq-ok pk' s w f in
        cmp_bytes-encode_pk_loop pk pk' s.primary_key s u w r q hv hw la lb ea eb

-- Two keys that `encode` built under one schema, from values that their types can hold, compare by
-- the primary key upwards, by the sequence number downwards then, and a delete lies before a put of
-- one sequence number.
pub cmp-encode :
    (s : TableSchema) (pk pk' : List FieldValue) (seq seq' : SeqNum) (op op' : OpType)
    (k k' : InternalKey)
    → All IsValue pk
    → All IsValue pk'
    → encode pk seq op s ≡ ok k
    → encode pk' seq' op' s ≡ ok k'
    → cmp k k'
      ≡ then_cmp (cmp_pk pk pk') (then_cmp (compare seq' seq) (compare (op_byte op) (op_byte op')))
unfolding cmp
cmp-encode s pk pk' seq seq' op op' k k' hv hw e f =
    let a = encode-eq-ok pk seq op s k e in
    let b = encode-eq-ok pk' seq' op' s k' f in
    rw (a.split, b.split)
      (cmp_bytes-encode_pk_loop pk pk' s.primary_key s a.user b.user _ _ hv hw a.arity b.arity
          a.fields b.fields
        ∙ ap (then_cmp (cmp_pk pk pk')) (cmp_bytes-tag seq seq' op op' a.bound b.bound))

cmp_ℤ_refl : (a : ℤ) → cmp_ℤ a a ≡ eq
cmp_ℤ_refl (pos n) = compare_refl n
cmp_ℤ_refl (negsuc n) = compare_refl n

cmp_value_refl : (v : FieldValue) → cmp_value v v ≡ eq
cmp_value_refl (FieldValue.boolean b) = compare_refl _
cmp_value_refl (FieldValue.int32 v) = cmp_ℤ_refl v
cmp_value_refl (FieldValue.int64 v) = cmp_ℤ_refl v
cmp_value_refl (FieldValue.float v) = cmp_ℤ_refl _
cmp_value_refl (FieldValue.double v) = cmp_ℤ_refl _
cmp_value_refl (FieldValue.bytes b) = cmp_bytes_refl b

pub cmp_pk_refl : (vs : List FieldValue) → cmp_pk vs vs ≡ eq
cmp_pk_refl [] = refl
cmp_pk_refl (v ∷ vs) = rw (cmp_value_refl v) (cmp_pk_refl vs)

-- The key that `seek_latest` builds sorts strictly before every key of the same primary key whose
-- sequence number is below `SEQNUM_MAX`.
pub seek_latest-first :
    (s : TableSchema) (pk : List FieldValue) (seq : SeqNum) (op : OpType) (sought k : InternalKey)
    → All IsValue pk
    → seq < seqnum_max
    → seek_latest pk s ≡ ok sought
    → encode pk seq op s ≡ ok k
    → cmp sought k ≡ lt
unfolding seek_latest
seek_latest-first s pk seq op sought k hv h e f =
    cmp-encode s pk pk seqnum_max seq put op sought k hv hv e f
    ∙ rw (cmp_pk_refl pk, compare-lt seq seqnum_max h)
