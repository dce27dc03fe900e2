-- ===== src/Memtable/Skiplist/Lookup/Scan.antt =====
-- `get` stops at the first key that it does not look for: no later entry could be the one.
use merutable.Bytes.{Bytes, eq_bytes, cmp_bytes, to_be_bytes}
use merutable.Memtable.Skiplist.{
  build_seek_key, EntryValue, user_key_of, decode_seq_from_key, seek_tag, get_loop,
}
use merutable.Types.Sequence.{SeqNum, seqnum_max, OpType}
use merutable.Prelude.{
  ◌≢◌, List, ◌<◌, Option, take, All, ◌≡◌, none, ◌∷◌, length, false, if◌then◌else◌, ◌∙◌, Bool-cases,
  [], drop, inl, ◌&&◌, lt, refl, leb, sym, inr, some, ◌++◌, ap, take-append-drop, gt, arith,
  compare-gt, take-append_length, ◌+◌, length-append, Bool, ltb, true, subst,
}
use merutable.Memtable.Skiplist.Lookup.{Version, Apart, key_of, user_key_of-key_of, Stored}
use merutable.Bytes.Order.{eq_bytes_iff}
use merutable.Types.Key.Tag.{tag_of, cmp_bytes-tag}
use merutable.Bytes.Prefix.{cmp_bytes-front, cmp_bytes-beyond, cmp_bytes-lt}
use merutable.Memtable.SkipMap.Sorted.{IsSorted, drop_below-cases}
use merutable.Memtable.SkipMap.{drop_below}
use merutable.Bytes.Words.{length-to_be_bytes}

-- The first entry that the reader sees, with no early stop
unfoldable pub first_match : Bytes → SeqNum → List (Bytes × EntryValue) → Option EntryValue
first_match u read_seq [] = none
first_match u read_seq ((k, e) ∷ l) =
    let rest = first_match u read_seq l in
    if eq_bytes (user_key_of k) u && leb (decode_seq_from_key k) read_seq then some e else rest

not_eq : (x y : Bytes) → x ≢ y → eq_bytes x y ≡ false
not_eq x y h = elim (Bool-cases (eq_bytes x y)) [
  | inl t ↦ absurd (h ((eq_bytes_iff x y).0 t))
  | inr f ↦ f
]

pub first_match-other :
    (u : Bytes) (read_seq : SeqNum) (k : Bytes) (e : EntryValue) (l : List (Bytes × EntryValue))
    → user_key_of k ≢ u
    → first_match u read_seq ((k, e) ∷ l) ≡ first_match u read_seq l
unfolding first_match
first_match-other u read_seq k e l h = rw (not_eq (user_key_of k) u h, first_match)

first_match-none :
    (u : Bytes) (read_seq : SeqNum) (l : List (Bytes × EntryValue))
    → All (λ p. user_key_of p.0 ≢ u) l
    → first_match u read_seq l ≡ none
first_match-none u read_seq [] h = unfold first_match in refl
first_match-none u read_seq ((k, e) ∷ l) h =
    first_match-other u read_seq k e l h.0 ∙ first_match-none u read_seq l h.1

-- What a stored version must be like for a reader of `u`.
abbrev pub Sound : Bytes → Version → Type 0
Sound u v = (v.seq < seqnum_max) × Apart u v.user_key

-- The keys with the front `u` are those of the user key `u`.
front_of :
    (u : Bytes) (v : Version) → Apart u v.user_key → take (length u) (key_of v) ≡ u → u ≡ v.user_key
front_of u v a h =
    a (drop (length u) (key_of v)) (to_be_bytes 8 (tag_of v.seq v.entry.op_type))
      (ap (λ x. x ++ drop (length u) (key_of v)) (sym h) ∙ take-append-drop (length u) (key_of v))

seek_tag-tag_of : seek_tag ≡ to_be_bytes 8 (tag_of seqnum_max OpType.put)
unfolding to_be_bytes
seek_tag-tag_of = refl

-- Below the sought key there is no version of `u`.
below_seek :
    (u : Bytes) (v : Version)
    → v.seq < seqnum_max
    → cmp_bytes (key_of v) (build_seek_key u) ≡ lt
    → user_key_of (key_of v) ≢ u
unfolding build_seek_key
below_seek u v h c e =
    let same : v.user_key ≡ u = sym (user_key_of-key_of v) ∙ e in
    let tags : cmp_bytes (key_of v) (u ++ seek_tag) ≡ gt =
      ap (λ x. cmp_bytes (x ++ to_be_bytes 8 (tag_of v.seq v.entry.op_type)) (u ++ seek_tag)) same
      ∙ cmp_bytes-front u _ _
      ∙ ap (cmp_bytes _) seek_tag-tag_of
      ∙ cmp_bytes-tag v.seq seqnum_max v.entry.op_type OpType.put (omega arith) (omega arith)
      ∙ rw (compare-gt seqnum_max v.seq h) in
    absurd cc

pub drop_below-first_match :
    (u : Bytes) (read_seq : SeqNum) (l : List (Bytes × EntryValue))
    → All (Stored (Sound u)) l
    → first_match u read_seq (drop_below (build_seek_key u) l) ≡ first_match u read_seq l
drop_below-first_match u read_seq [] h = unfold drop_below in refl
drop_below-first_match u read_seq ((k, e) ∷ l) ((v, ek, ee, q), hs) =
    elim (drop_below-cases (build_seek_key u) k e l) [
      | inr (c, d) ↦ ap (first_match u read_seq) d
      | inl (c, d) ↦
          ap (first_match u read_seq) d
          ∙ drop_below-first_match u read_seq l hs
          ∙ sym (
              first_match-other u read_seq k e l (λ o.
                below_seek u v q.0 (ap (λ x. cmp_bytes x (build_seek_key u)) (sym ek) ∙ c)
                  (ap user_key_of (sym ek) ∙ o)))
    ]

-- A key with another front than `u` ends the loop.
get_loop-other :
    (u : Bytes) (read_seq : SeqNum) (k : Bytes) (e : EntryValue) (l : List (Bytes × EntryValue))
    → eq_bytes (take (length u) k) u ≡ false
    → get_loop u read_seq ((k, e) ∷ l) ≡ none
unfolding get_loop
get_loop-other u read_seq k e l h = elim (Bool-cases (ltb (length k) (length u + 8))) [
  | inl t ↦ rw (t, get_loop)
  | inr f ↦ rw (f, h, get_loop)
]

get_loop-same :
    (u : Bytes) (read_seq : SeqNum) (k : Bytes) (e : EntryValue) (l : List (Bytes × EntryValue))
    → ltb (length k) (length u + 8) ≡ false
    → eq_bytes (take (length u) k) u ≡ true
    → eq_bytes (user_key_of k) u ≡ true
    → get_loop u read_seq l ≡ first_match u read_seq l
    → get_loop u read_seq ((k, e) ∷ l) ≡ first_match u read_seq ((k, e) ∷ l)
unfolding get_loop first_match
get_loop-same u read_seq k e l a b c d = rw (a, b, c, d, get_loop, first_match)

-- After a key with another front, every entry is one of another user key.
others :
    (u k : Bytes) (l : List (Bytes × EntryValue))
    → cmp_bytes k (build_seek_key u) ≢ lt
    → take (length u) k ≢ u
    → All (λ p. cmp_bytes k p.0 ≡ lt) l
    → All (Stored (Sound u)) l
    → All (λ p. user_key_of p.0 ≢ u) l
unfolding build_seek_key
others u k [] a b h g = tt
others u k ((k', e) ∷ l) a b h ((v, ek, ee, q), gs) = (other, others u k l a b h.1 gs)
  where
    other : user_key_of k' ≢ u
    other o =
        let same : v.user_key ≡ u = sym (user_key_of-key_of v) ∙ ap user_key_of (sym ek) ∙ o in
        let below : cmp_bytes k' k ≡ lt =
          ap (λ x. cmp_bytes x k)
            (ek ∙ ap (λ x. x ++ to_be_bytes 8 (tag_of v.seq v.entry.op_type)) same)
          ∙ cmp_bytes-beyond u k seek_tag (to_be_bytes 8 (tag_of v.seq v.entry.op_type)) a b in
        let above : cmp_bytes k' k ≡ gt = cmp_bytes-lt k k' h.0 in absurd cc

take-key_of : (v : Version) → take (length v.user_key) (key_of v) ≡ v.user_key
take-key_of v =
    take-append_length (length v.user_key) v.user_key (to_be_bytes 8 (tag_of v.seq v.entry.op_type))
      refl

length-key_of : (v : Version) → length (key_of v) ≡ length v.user_key + 8
length-key_of v =
    length-append v.user_key (to_be_bytes 8 (tag_of v.seq v.entry.op_type))
    ∙ ap (λ n. length v.user_key + n) (length-to_be_bytes 8 (tag_of v.seq v.entry.op_type))

pub get_loop-first_match :
    (u : Bytes) (read_seq : SeqNum) (l : List (Bytes × EntryValue))
    → IsSorted l
    → All (Stored (Sound u)) l
    → All (λ p. cmp_bytes p.0 (build_seek_key u) ≢ lt) l
    → get_loop u read_seq l ≡ first_match u read_seq l
get_loop-first_match u read_seq [] h g c = unfold get_loop first_match in refl
get_loop-first_match u read_seq ((k, e) ∷ l) h ((v, ek, ee, q), gs) c =
    elim (Bool-cases (eq_bytes (take (length u) k) u)) [
      | inl t ↦
          let same =
            front_of u v q.1
              (ap (take (length u)) (sym ek) ∙ (eq_bytes_iff (take (length u) k) u).0 t) in
          let long = ap length ek ∙ length-key_of v in
          get_loop-same u read_seq k e l (ground (arith, long, ap length same)) t
            ((eq_bytes_iff (user_key_of k) u).1
              (ap user_key_of ek ∙ user_key_of-key_of v ∙ sym same))
            (get_loop-first_match u read_seq l h.1 gs c.1)
      | inr f ↦
          let differs : take (length u) k ≢ u =
            λ t. cc_not f ((eq_bytes_iff (take (length u) k) u).1 t) in
          get_loop-other u read_seq k e l f
          ∙ sym (
              first_match-none u read_seq ((k, e) ∷ l)
                (λ o. differs (front_back o), others u k l c.0 differs h.0 gs))
    ]
  where
    cc_not : {b : Bool} → b ≡ false → b ≡ true → ⊥
    cc_not p r = cc

    front_back : user_key_of k ≡ u → take (length u) k ≡ u
    front_back o =
        let same : v.user_key ≡ u = sym (user_key_of-key_of v) ∙ ap user_key_of (sym ek) ∙ o in
        ap (take (length u)) (ek) ∙ subst (λ x. take (length x) (key_of v) ≡ x) same (take-key_of v)
