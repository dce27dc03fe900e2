-- ===== src/Memtable/SkipMap/Sorted.antt =====
-- Insertion keeps the keys of a map in order.
use merutable.Memtable.SkipMap.{insert_sorted, drop_below}
use merutable.Bytes.{Bytes, cmp_bytes}
use merutable.Prelude.{
  List, All, ◌≢◌, ◌≡◌, eq, gt, lt, ◌∷◌, Ordering-cases, [], inl, inr, subst, sym, ◌⊎◌,
}
use merutable.Bytes.Prefix.{cmp_bytes_trans, cmp_bytes-gt}
use merutable.Bytes.Order.{eq_of_cmp_bytes}

module _ {V : Type 0} where
  pub insert_sorted-lt :
      (k k' : Bytes) (v v' : V) (l : List (Bytes × V))
      → cmp_bytes k k' ≡ lt
      → insert_sorted k v ((k', v') ∷ l) ≡ (k, v) ∷ (k', v') ∷ l
  unfolding insert_sorted
  insert_sorted-lt k k' v v' l h = rw (h, insert_sorted)

  pub insert_sorted-eq :
      (k k' : Bytes) (v v' : V) (l : List (Bytes × V))
      → cmp_bytes k k' ≡ eq
      → insert_sorted k v ((k', v') ∷ l) ≡ (k, v) ∷ l
  unfolding insert_sorted
  insert_sorted-eq k k' v v' l h = rw (h, insert_sorted)

  pub insert_sorted-gt :
      (k k' : Bytes) (v v' : V) (l : List (Bytes × V))
      → cmp_bytes k k' ≡ gt
      → insert_sorted k v ((k', v') ∷ l) ≡ (k', v') ∷ insert_sorted k v l
  unfolding insert_sorted
  insert_sorted-gt k k' v v' l h = rw (h, insert_sorted)

  pub insert_sorted-All :
      (P : Bytes × V → Type 0) (k : Bytes) (v : V) (l : List (Bytes × V))
      → P (k, v)
      → All P l
      → All P (insert_sorted k v l)
  insert_sorted-All P k v [] h g = unfold insert_sorted in (h, tt)
  insert_sorted-All P k v ((k', v') ∷ l) h g = elim (Ordering-cases (cmp_bytes k k')) [
    | inl c ↦ rw (insert_sorted-lt k k' v v' l c) (h, g)
    | inr (inl c) ↦ rw (insert_sorted-eq k k' v v' l c) (h, g.1)
    | inr (inr c) ↦ rw (insert_sorted-gt k k' v v' l c) (g.0, insert_sorted-All P k v l h g.1)
  ]

  -- Keys rise strictly.
  abbrev pub IsSorted : List (Bytes × V) → Type 0
  IsSorted [] = Unit
  IsSorted ((k, v) ∷ l) = (All (λ p. cmp_bytes k p.0 ≡ lt) l) × IsSorted l

  All-trans :
      (k k' : Bytes) (l : List (Bytes × V))
      → cmp_bytes k k' ≡ lt
      → All (λ p. cmp_bytes k' p.0 ≡ lt) l
      → All (λ p. cmp_bytes k p.0 ≡ lt) l
  All-trans k k' [] h g = tt
  All-trans k k' ((k'', v) ∷ l) h g = (cmp_bytes_trans k k' k'' h g.0, All-trans k k' l h g.1)

  pub insert_sorted-IsSorted :
      (k : Bytes) (v : V) (l : List (Bytes × V)) → IsSorted l → IsSorted (insert_sorted k v l)
  insert_sorted-IsSorted k v [] h = unfold insert_sorted in (tt, tt)
  insert_sorted-IsSorted k v ((k', v') ∷ l) h = elim (Ordering-cases (cmp_bytes k k')) [
    | inl c ↦ rw (insert_sorted-lt k k' v v' l c) ((c, All-trans k k' l c h.0), h)
    | inr (inl c) ↦
        rw (insert_sorted-eq k k' v v' l c)
          (subst (λ y. All (λ p. cmp_bytes y p.0 ≡ lt) l) (sym (eq_of_cmp_bytes k k' c)) h.0, h.1)
    | inr (inr c) ↦ rw (insert_sorted-gt k k' v v' l c) (
      insert_sorted-All (λ p. cmp_bytes k' p.0 ≡ lt) k v l (cmp_bytes-gt k k' c) h.0,
      insert_sorted-IsSorted k v l h.1,
    )
  ]

  -- In a sorted list, `drop_below` leaves a key that is not below the bound with all that follow.
  pub drop_below-cases :
      (b k : Bytes) (v : V) (l : List (Bytes × V))
      → ((cmp_bytes k b ≡ lt) × (drop_below b ((k, v) ∷ l) ≡ drop_below b l))
        ⊎ ((cmp_bytes k b ≢ lt) × (drop_below b ((k, v) ∷ l) ≡ (k, v) ∷ l))
  unfolding drop_below
  drop_below-cases b k v l = elim (Ordering-cases (cmp_bytes k b)) [
    | inl c ↦ inl (c, rw (c, drop_below))
    | inr (inl c) ↦ inr (λ e. cc, rw (c, drop_below))
    | inr (inr c) ↦ inr (λ e. cc, rw (c, drop_below))
  ]

  pub drop_below-IsSorted :
      (b : Bytes) (l : List (Bytes × V)) → IsSorted l → IsSorted (drop_below b l)
  drop_below-IsSorted b [] h = unfold drop_below in tt
  drop_below-IsSorted b ((k, v) ∷ l) h = elim (drop_below-cases b k v l) [
    | inl (c, e) ↦ rw e (drop_below-IsSorted b l h.1)
    | inr (c, e) ↦ rw e h
  ]

  pub drop_below-All :
      (P : Bytes × V → Type 0) (b : Bytes) (l : List (Bytes × V)) → All P l → All P (drop_below b l)
  drop_below-All P b [] h = unfold drop_below in tt
  drop_below-All P b ((k, v) ∷ l) h = elim (drop_below-cases b k v l) [
    | inl (c, e) ↦ rw e (drop_below-All P b l h.1)
    | inr (c, e) ↦ rw e h
  ]

  All-above :
      (b k : Bytes) (l : List (Bytes × V))
      → cmp_bytes k b ≢ lt
      → All (λ p. cmp_bytes k p.0 ≡ lt) l
      → All (λ p. cmp_bytes p.0 b ≢ lt) l
  All-above b k [] h g = tt
  All-above b k ((k', v) ∷ l) h g = (λ e. h (cmp_bytes_trans k k' b g.0 e), All-above b k l h g.1)

  -- What is left is not below the bound.
  pub drop_below-above :
      (b : Bytes) (l : List (Bytes × V))
      → IsSorted l
      → All (λ p. cmp_bytes p.0 b ≢ lt) (drop_below b l)
  drop_below-above b [] h = unfold drop_below in tt
  drop_below-above b ((k, v) ∷ l) h = elim (drop_below-cases b k v l) [
    | inl (c, e) ↦ rw e (drop_below-above b l h.1)
    | inr (c, e) ↦ rw e (c, All-above b k l c h.0)
  ]
