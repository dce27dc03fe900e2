-- ===== src/Parquet/KvIndex/Build.antt =====
-- What `build` writes (parquet/kv_index.rs), and what it refuses.
use merutable.Bytes.{Bytes, cmp_bytes}
use merutable.Parquet.KvIndex.{
  PageLocation, KvSparseIndex, slice, shared_prefix_len, is_restart, encode_entry, shared_of,
  not_above, build_entries, decode_entry_at,
}
use merutable.Parquet.KvIndex.Entry.{InRange, length-encode_entry, decode-encode_entry}
use merutable.Prelude.{
  ℕ, Bool, true, false, List, [], ◌∷◌, ◌+◌, ◌-◌, ◌%◌, ◌^◌, ◌≤◌, ◌<◌, ◌≡◌, ◌∙◌, ok, length, take,
  ◌++◌, leb, le→leb, leb→le, ltb, ◌&&◌, not, ◌==◌, if◌then◌else◌, refl, arith, gt, length-append,
  append_assoc, append-nil, ap, Bool-cases, inl, inr, sym,
}

-- The bytes of the entries from index `i` on, after the key `prev`
unfoldable pub encoded : ℕ → ℕ → Bytes → List (Bytes × PageLocation) → Bytes
encoded ri i prev [] = []
encoded ri i prev ((key, loc) ∷ es) =
    encode_entry (shared_of ri i prev key) key loc ++ encoded ri (i + 1) key es

-- The offsets of their restarts, the first entry at `pos`
unfoldable pub offsets : ℕ → ℕ → ℕ → Bytes → List (Bytes × PageLocation) → List ℕ
offsets ri i pos prev [] = []
offsets ri i pos prev ((key, loc) ∷ es) =
    let rest = offsets ri (i + 1) (pos + (24 + (length key - shared_of ri i prev key))) key es in
    if is_restart ri i then (pos % 2 ^ 32) ∷ rest else rest

-- Keys that are short and ascend; the one at index 0 has none before it.
abbrev pub Ordered : ℕ → Bytes → List (Bytes × PageLocation) → Type 0
Ordered i prev [] = Unit
Ordered i prev ((key, loc) ∷ es) =
    (length key < 2 ^ 16) × (0 < i → cmp_bytes key prev ≡ gt) × Ordered (i + 1) key es

above : (key prev : Bytes) → not_above key prev ≡ false → cmp_bytes key prev ≡ gt
above key prev h = ground (arith, h)

build_entries_step :
    (ri i : ℕ) (prev buf : Bytes) (os : List ℕ) (key : Bytes) (loc : PageLocation)
    (es : List (Bytes × PageLocation)) (b : Bytes) (o : List ℕ)
    → build_entries ri i prev buf os ((key, loc) ∷ es) ≡ ok (b, o)
    → (length key < 2 ^ 16)
      × (0 < i → cmp_bytes key prev ≡ gt)
      × (build_entries ri
            (i + 1)
            key
            (buf ++ encode_entry (shared_of ri i prev key) key loc)
            (if is_restart ri i then os ++ (length buf % 2 ^ 32) ∷ [] else os)
            es
          ≡ ok (b, o))
unfolding build_entries
build_entries_step ri i prev buf os key loc es b o e = elim (Bool-cases (leb (length key) 65535)) [
  | inr u ↦ absurd (refused u)
  | inl t ↦ elim (Bool-cases (not (ltb 0 i && not_above key prev))) [
    | inr u ↦ absurd (refused_too t u)
    | inl z ↦ (
      omega (arith, leb→le (length key) 65535 t),
      λ p. above key prev (ground (arith, z, p)),
      rw (t, z) at e,
    )
  ]
]
  where
    refused : leb (length key) 65535 ≡ false → ⊥
    refused u = let h = rw (u) at e in cc

    refused_too : leb (length key) 65535 ≡ true → not (ltb 0 i && not_above key prev) ≡ false → ⊥
    refused_too t u = let h = rw (t, u) at e in cc

pub build_entries-ok :
    (ri i : ℕ) (prev buf : Bytes) (os : List ℕ) (es : List (Bytes × PageLocation)) (b : Bytes)
    (o : List ℕ)
    → build_entries ri i prev buf os es ≡ ok (b, o)
    → (b ≡ buf ++ encoded ri i prev es)
      × (o ≡ os ++ offsets ri i (length buf) prev es)
      × Ordered i prev es
unfolding encoded offsets
build_entries-ok ri i prev buf os [] b o e =
    unfold build_entries in (sym (append-nil buf ∙ (cc)), sym (append-nil os ∙ (cc)), tt)
build_entries-ok ri i prev buf os ((key, loc) ∷ es) b o e =
    let (short, asc, e') = build_entries_step ri i prev buf os key loc es b o e in
    let (eb, eo, ord) = build_entries-ok ri (i + 1) key _ _ es b o e' in
    (
      eb
          ∙ append_assoc buf (encode_entry (shared_of ri i prev key) key loc)
              (encoded ri (i + 1) key es),
      eo ∙ placed (is_restart ri i),
      (short, asc, ord),
    )
  where
    grown :
        length (buf ++ encode_entry (shared_of ri i prev key) key loc)
        ≡ length buf + (24 + (length key - shared_of ri i prev key))
    grown = omega (
      arith,
      length-append {0} buf (encode_entry (shared_of ri i prev key) key loc),
      length-encode_entry (shared_of ri i prev key) key loc,
    )

    placed :
        (restart : Bool)
        → (if restart then os ++ (length buf % 2 ^ 32) ∷ [] else os)
            ++ offsets ri
                (i + 1)
                (length (buf ++ encode_entry (shared_of ri i prev key) key loc))
                key
                es
          ≡ os
            ++ (if restart
                then (length buf % 2 ^ 32)
                  ∷ offsets ri
                      (i + 1)
                      (length buf + (24 + (length key - shared_of ri i prev key)))
                      key
                      es
                else offsets ri
                    (i + 1)
                    (length buf + (24 + (length key - shared_of ri i prev key)))
                    key
                    es)
    placed true = rw grown (append_assoc os ((length buf % 2 ^ 32) ∷ []) _)
    placed false = rw grown refl

shared-le : (xs ys : Bytes) → shared_prefix_len xs ys ≤ length ys
unfolding shared_prefix_len
shared-le [] ys = omega arith
shared-le (x ∷ xs) [] = omega arith
shared-le (x ∷ xs) (y ∷ ys) = ground (arith, shared-le xs ys)

shared-le_left : (xs ys : Bytes) → shared_prefix_len xs ys ≤ length xs
unfolding shared_prefix_len
shared-le_left [] ys = omega arith
shared-le_left (x ∷ xs) [] = omega arith
shared-le_left (x ∷ xs) (y ∷ ys) = ground (arith, shared-le_left xs ys)

shared_take :
    (xs ys : Bytes) → take (shared_prefix_len xs ys) xs ≡ take (shared_prefix_len xs ys) ys
unfolding shared_prefix_len
shared_take [] ys = refl
shared_take (x ∷ xs) [] = refl
shared_take (x ∷ xs) (y ∷ ys) = elim (Bool-cases (x == y)) [
  | inl t ↦
      let e : x ≡ y = ground arith in rw (t, e) (ap (λ (r : Bytes). y ∷ r) (shared_take xs ys))
  | inr u ↦ rw u refl
]

pub shared_of-le : (ri i : ℕ) (prev key : Bytes) → shared_of ri i prev key ≤ length key
unfolding shared_of
shared_of-le ri i prev key = ground (arith, shared-le prev key)

pub shared_of-le_prev : (ri i : ℕ) (prev key : Bytes) → shared_of ri i prev key ≤ length prev
unfolding shared_of
shared_of-le_prev ri i prev key = ground (arith, shared-le_left prev key)

pub slice-shared :
    (ri i : ℕ) (prev key : Bytes)
    → slice prev 0 (shared_of ri i prev key) ≡ ok (take (shared_of ri i prev key) key)
unfolding slice shared_of
slice-shared ri i prev key = elim (Bool-cases (is_restart ri i)) [
  | inl t ↦ rw (t, le→leb 0 (length prev) (omega arith)) refl
  | inr u ↦
      rw
        (
          u,
          le→leb (0 + shared_prefix_len prev key) (length prev)
              (omega (arith, shared-le_left prev key)),
        )
        (ap ok (shared_take prev key))
]

-- The index holds the entries `es` from index `i` on at a cursor, up to the end of its entries.
pub record Holds (index : KvSparseIndex) (ri i : ℕ) (prev : Bytes)
    (es : List (Bytes × PageLocation)) (cursor : ℕ) : Type 0 where
  pub front : Bytes
  pub back : Bytes
  pub content : index.bytes ≡ front ++ (encoded ri i prev es ++ back)
  pub starts : index.entries_offset + cursor ≡ length front
  pub ends : index.entries_size ≡ cursor + length (encoded ri i prev es)

abbrev pub next_cursor : ℕ → ℕ → Bytes → Bytes → ℕ → ℕ
next_cursor ri i prev key cursor = cursor + (24 + (length key - shared_of ri i prev key))

module _ (index : KvSparseIndex) (ri i : ℕ) (prev key : Bytes) (loc : PageLocation)
    (es : List (Bytes × PageLocation)) (cursor : ℕ) where
  pub length-encoded :
      length (encoded ri i prev ((key, loc) ∷ es))
      ≡ 24 + (length key - shared_of ri i prev key) + length (encoded ri (i + 1) key es)
  unfolding encoded
  length-encoded = omega (
    arith,
    length-append {0} (encode_entry (shared_of ri i prev key) key loc) (encoded ri (i + 1) key es),
    length-encode_entry (shared_of ri i prev key) key loc,
  )

  pub Holds-next :
      Holds index ri i prev ((key, loc) ∷ es) cursor
      → Holds index ri (i + 1) key es (next_cursor ri i prev key cursor)
  unfolding encoded
  Holds-next h = record {
    front = h.front ++ encode_entry (shared_of ri i prev key) key loc;
    back = h.back;
    content = h.content ∙ regrouped;
    starts = omega (
      arith,
      h.starts,
      length-append {0} h.front (encode_entry (shared_of ri i prev key) key loc),
      length-encode_entry (shared_of ri i prev key) key loc,
    );
    ends = omega (arith, h.ends, length-encoded);
  }
    where
      regrouped :
          h.front
            ++ ((encode_entry (shared_of ri i prev key) key loc ++ encoded ri (i + 1) key es)
                ++ h.back)
          ≡ (h.front ++ encode_entry (shared_of ri i prev key) key loc)
            ++ (encoded ri (i + 1) key es ++ h.back)
      regrouped = simp append_assoc

  -- The entry at the cursor, decoded after a key that has what is shared
  pub decode-Holds :
      (prev' : Bytes)
      → Holds index ri i prev ((key, loc) ∷ es) cursor
      → length key < 2 ^ 16
      → InRange loc
      → slice prev' 0 (shared_of ri i prev key) ≡ ok (take (shared_of ri i prev key) key)
      → decode_entry_at index cursor prev' ≡ ok (key, (loc, next_cursor ri i prev key cursor))
  unfolding encoded
  decode-Holds prev' h short range same =
      decode-encode_entry index h.front (encoded ri (i + 1) key es ++ h.back)
        (shared_of ri i prev key) key prev' loc cursor (h.content ∙ regrouped) h.starts short range
        (shared_of-le ri i prev key) same
    where
      regrouped :
          h.front
            ++ ((encode_entry (shared_of ri i prev key) key loc ++ encoded ri (i + 1) key es)
                ++ h.back)
          ≡ h.front
            ++ (encode_entry (shared_of ri i prev key) key loc
                ++ (encoded ri (i + 1) key es ++ h.back))
      regrouped = simp append_assoc
