-- ===== src/Memtable/Skiplist/Newest.antt =====
-- The entries of a history, searched by key, give what the history gives, searched by age.
use merutable.Memtable.Skiplist.Lookup.Scan.{
  first_match, get_loop-first_match, Sound, drop_below-first_match,
}
use merutable.Bytes.{Bytes, eq_bytes, cmp_bytes, to_be_bytes}
use merutable.Memtable.Skiplist.Lookup.{
  Version, Descending, sees, entries_of, Stored, lookup, Apart, entries_of-Stored, key_of,
  user_key_of-key_of, decode_seq-key_of, entries_of-IsSorted,
}
use merutable.Prelude.{
  Bool, List, ◌&&◌, ◌<◌, All, ◌≡◌, true, ◌∷◌, [], false, refl, leb, ◌∙◌, lt, if◌then◌else◌, ap,
  some, ◌++◌, Bool-cases, arith, inl, sym, inr, gt, Ordering-cases, compare-lt,
}
use merutable.Memtable.SkipMap.{SkipMap, insert_sorted, drop_below}
use merutable.Types.Sequence.{SeqNum, seqnum_max}
use merutable.Memtable.Skiplist.{
  EntryValue, get, MemtableSkipList, user_key_of, decode_seq_from_key, build_seek_key, get_loop,
}
use merutable.Bytes.Order.{eq_bytes_iff, eq_of_cmp_bytes}
use merutable.Types.Key.Tag.{tag_of, cmp_bytes-tag}
use merutable.Memtable.SkipMap.Sorted.{
  drop_below-IsSorted, drop_below-All, drop_below-above, insert_sorted-lt, insert_sorted-gt,
}
use merutable.Bytes.Prefix.{cmp_bytes-front}

first_match-here :
    (u : Bytes) (read_seq : SeqNum) (k : Bytes) (e : EntryValue) (l : List (Bytes × EntryValue))
    → eq_bytes (user_key_of k) u && leb (decode_seq_from_key k) read_seq ≡ true
    → first_match u read_seq ((k, e) ∷ l) ≡ some e
unfolding first_match
first_match-here u read_seq k e l h = rw (h, first_match)

first_match-there :
    (u : Bytes) (read_seq : SeqNum) (k : Bytes) (e : EntryValue) (l : List (Bytes × EntryValue))
    → eq_bytes (user_key_of k) u && leb (decode_seq_from_key k) read_seq ≡ false
    → first_match u read_seq ((k, e) ∷ l) ≡ first_match u read_seq l
unfolding first_match
first_match-there u read_seq k e l h = rw (h, first_match)

-- The test on the key of a version is that on the version.
sees-key_of :
    (u : Bytes) (read_seq : SeqNum) (v : Version)
    → v.seq < seqnum_max
    → eq_bytes (user_key_of (key_of v)) u && leb (decode_seq_from_key (key_of v)) read_seq
      ≡ sees u read_seq v
sees-key_of u read_seq v h = rw (user_key_of-key_of v, decode_seq-key_of v (omega arith))

-- A later version of a user key has the lesser key.
later_first :
    (v w : Version)
    → v.seq < seqnum_max
    → w.seq < v.seq
    → v.user_key ≡ w.user_key
    → cmp_bytes (key_of v) (key_of w) ≡ lt
later_first v w h g e =
    ap (λ x. cmp_bytes (key_of v) (x ++ to_be_bytes 8 (tag_of w.seq w.entry.op_type))) (sym e)
    ∙ cmp_bytes-front v.user_key _ _
    ∙ cmp_bytes-tag v.seq w.seq v.entry.op_type w.entry.op_type (omega arith) (omega arith)
    ∙ rw (compare-lt w.seq v.seq g)

and_left : (a b : Bool) → a && b ≡ true → a ≡ true
and_left true b h = refl
and_left false b h = cc

sees-user_key :
    (u : Bytes) (read_seq : SeqNum) (v : Version) → sees u read_seq v ≡ true → v.user_key ≡ u
sees-user_key u read_seq v h = (eq_bytes_iff v.user_key u).0 (and_left _ _ h)

unseen : (b : Bool) → (b ≡ true → ⊥) → b ≡ false
unseen true h = absurd (h refl)
unseen false h = refl

-- Insertion of a version that is newer than all stored ones: a reader finds it, if it sees it, and
-- what it found before, if it does not.
pub first_match-insert :
    (u : Bytes) (read_seq : SeqNum) (v : Version) (l : List (Bytes × EntryValue))
    → v.seq < seqnum_max
    → All (Stored (λ w. w.seq < v.seq)) l
    → first_match u read_seq (insert_sorted (key_of v) v.entry l)
      ≡ (if sees u read_seq v then some v.entry else first_match u read_seq l)
first_match-insert u read_seq v [] h g =
    unfold insert_sorted first_match in rw (sees-key_of u read_seq v h)
first_match-insert u read_seq v ((k, e) ∷ l) h ((w, ek, ee, q), gs) =
    elim (Ordering-cases (cmp_bytes (key_of v) k)) [
      | inl c ↦
          ap (first_match u read_seq) (insert_sorted-lt (key_of v) k v.entry e l c)
          ∙ first ((k, e) ∷ l)
      | inr (inl c) ↦ absurd (omega (arith, same_seq (eq_of_cmp_bytes (key_of v) k c ∙ ek)))
      | inr (inr c) ↦
          ap (first_match u read_seq) (insert_sorted-gt (key_of v) k v.entry e l c)
          ∙ elim (Bool-cases (sees u read_seq w)) [
            | inl t ↦
                let hidden = unseen (sees u read_seq v) (λ s. apart c (
                  later_first v w h q
                    (sees-user_key u read_seq v s ∙ sym (sees-user_key u read_seq w t)))) in
                first_match-here u read_seq k e (insert_sorted (key_of v) v.entry l) (seen t)
                ∙ sym (rw hidden (first_match-here u read_seq k e l (seen t)))
            | inr f ↦
                first_match-there u read_seq k e (insert_sorted (key_of v) v.entry l) (seen f)
                ∙ first_match-insert u read_seq v l h gs
                ∙ sym (rw (first_match-there u read_seq k e l (seen f)))
          ]
    ]
  where
    first :
        (l : List (Bytes × EntryValue))
        → first_match u read_seq ((key_of v, v.entry) ∷ l)
          ≡ (if sees u read_seq v then some v.entry else first_match u read_seq l)
    first l = elim (Bool-cases (sees u read_seq v)) [
      | inl t ↦
          first_match-here u read_seq (key_of v) v.entry l (sees-key_of u read_seq v h ∙ t)
          ∙ sym (rw t)
      | inr f ↦
          first_match-there u read_seq (key_of v) v.entry l (sees-key_of u read_seq v h ∙ f)
          ∙ sym (rw f)
    ]

    same_seq : key_of v ≡ key_of w → v.seq ≡ w.seq
    same_seq p =
        sym (decode_seq-key_of v (omega arith))
        ∙ ap decode_seq_from_key p
        ∙ decode_seq-key_of w (omega arith)

    seen :
        {b : Bool}
        → sees u read_seq w ≡ b
        → eq_bytes (user_key_of k) u && leb (decode_seq_from_key k) read_seq ≡ b
    seen t =
        ap (λ x. eq_bytes (user_key_of x) u && leb (decode_seq_from_key x) read_seq) ek
        ∙ sees-key_of u read_seq w (omega arith)
        ∙ t

    apart : cmp_bytes (key_of v) k ≡ gt → cmp_bytes (key_of v) (key_of w) ≡ lt → ⊥
    apart c o = let p = ap (cmp_bytes (key_of v)) ek in cc

pub first_match-entries_of :
    (u : Bytes) (read_seq : SeqNum) (h : List Version)
    → Descending h
    → first_match u read_seq (entries_of h) ≡ lookup u read_seq h
unfolding entries_of lookup
first_match-entries_of u read_seq [] d = unfold first_match in refl
first_match-entries_of u read_seq (v ∷ h) d =
    first_match-insert u read_seq v (entries_of h) d.0
      (entries_of-Stored (λ w. w.seq < v.seq) h d.1)
    ∙ ap (λ r. if sees u read_seq v then some v.entry else r)
        (first_match-entries_of u read_seq h d.2)

Descending-All : (h : List Version) → Descending h → All (λ v. v.seq < seqnum_max) h
Descending-All [] d = tt
Descending-All (v ∷ h) d = (d.0, Descending-All h d.2)

All-both : {A : Type 0} (P Q : A → Type 0) (l : List A) → All P l → All Q l → All (λ a. P a × Q a) l
All-both P Q [] h g = tt
All-both P Q (a ∷ l) h g = ((h.0, g.0), All-both P Q l h.1 g.1)

module _ (S : SkipMap EntryValue) where
  -- A skip list that holds the versions of a history returns, for a user key and a sequence number,
  -- the newest version of that key that is not newer than the number, and nothing if there is none.
  -- Sequence numbers fall along the history from below `SEQNUM_MAX`, and of the user key and a stored
  -- one neither is a proper front of the other.
  pub get-lookup :
      (s : MemtableSkipList S.Map) (h : List Version) (u : Bytes) (read_seq : SeqNum)
      → S.iter s.map ≡ entries_of h
      → Descending h
      → All (λ v. Apart u v.user_key) h
      → get S s u read_seq ≡ lookup u read_seq h
  unfolding get
  get-lookup s h u read_seq e d a =
      let sound : All (Stored (Sound u)) (entries_of h) =
        entries_of-Stored (Sound u) h (All-both _ _ h (Descending-All h d) a) in
      let bound = build_seek_key u in
      ap (get_loop u read_seq) (S.lower_bound-iter s.map bound ∙ ap (drop_below bound) e)
      ∙ get_loop-first_match u read_seq (drop_below bound (entries_of h))
          (drop_below-IsSorted bound (entries_of h) (entries_of-IsSorted h))
          (drop_below-All (Stored (Sound u)) bound (entries_of h) sound)
          (drop_below-above bound (entries_of h) (entries_of-IsSorted h))
      ∙ drop_below-first_match u read_seq (entries_of h) sound
      ∙ first_match-entries_of u read_seq h d
