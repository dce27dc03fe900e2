-- ===== src/Engine/Job/Overlap/Sides.antt =====
-- The files of a level and the keys on either side of one that a compaction leaves (engine/compaction/job.rs).
use merutable.Bytes.{Bytes, cmp_bytes}
use merutable.Bytes.Order.{cmp_bytes_refl}
use merutable.Bytes.Prefix.{cmp_bytes-gt, cmp_bytes_trans}
use merutable.Engine.Job.{overlaps, is_nil}
use merutable.Engine.Job.Chunks.Bounds.{leb-cases}
use merutable.Iceberg.Version.{DataFileMeta, leb_bytes}
use merutable.Iceberg.Version.Search.{Disjoint}
use merutable.Prelude.{
  true, false, List, [], ◌∷◌, ◌≡◌, ◌⊎◌, inl, inr, ◌∙◌, All, lt, eq, Ordering-cases, refl, ap, sym,
  arith, Bool-cases, subst,
}

abbrev pub Member : DataFileMeta → List DataFileMeta → Type 0
Member f [] = ⊥
Member f (g ∷ gs) = (f ≡ g) ⊎ Member f gs

pub All-Member :
    (P : DataFileMeta → Type 0) (f : DataFileMeta) (fs : List DataFileMeta)
    → All P fs
    → Member f fs
    → P f
All-Member P f [] a m = absurd m
All-Member P f (g ∷ gs) a (inl e) = subst P (sym e) a.0
All-Member P f (g ∷ gs) a (inr m) = All-Member P f gs a.1 m

-- Two files of a level are the same, or one ends before the other begins.
abbrev Before : DataFileMeta → DataFileMeta → Type 0
Before f g = cmp_bytes f.meta.key_max g.meta.key_min ≡ lt

Disjoint-pair :
    (f g : DataFileMeta) (fs : List DataFileMeta)
    → Disjoint fs
    → Member f fs
    → Member g fs
    → (f ≡ g) ⊎ (Before f g ⊎ Before g f)
Disjoint-pair f g [] d m n = absurd m
Disjoint-pair f g (h ∷ hs) d (inl p) (inl q) = inl (p ∙ sym q)
Disjoint-pair f g (h ∷ hs) d (inl p) (inr n) = inr (inl (rw p (All-Member (Before h) g hs d.1 n)))
Disjoint-pair f g (h ∷ hs) d (inr m) (inl q) = inr (inr (rw q (All-Member (Before h) f hs d.1 m)))
Disjoint-pair f g (h ∷ hs) d (inr m) (inr n) = Disjoint-pair f g hs d.2 m n

Disjoint-range :
    (f : DataFileMeta) (fs : List DataFileMeta)
    → Disjoint fs
    → Member f fs
    → leb_bytes f.meta.key_min f.meta.key_max ≡ true
Disjoint-range f [] d m = absurd m
Disjoint-range f (g ∷ gs) d (inl e) = rw e d.0
Disjoint-range f (g ∷ gs) d (inr m) = Disjoint-range f gs d.2 m

-- A file that is not pulled in lies on one side of the union.
overlaps-false :
    (umin umax : Bytes) (f : DataFileMeta)
    → overlaps umin umax f ≡ false
    → (cmp_bytes umax f.meta.key_min ≡ lt) ⊎ (cmp_bytes f.meta.key_max umin ≡ lt)
unfolding overlaps
overlaps-false umin umax f h = elim (Bool-cases (leb_bytes f.meta.key_min umax)) [
  | inr u ↦ inl (leb-false f.meta.key_min umax u)
  | inl t ↦ elim (Bool-cases (leb_bytes umin f.meta.key_max)) [
    | inr u ↦ inr (leb-false umin f.meta.key_max u)
    | inl v ↦ absurd (both t v)
  ]
]
  where
    both : leb_bytes f.meta.key_min umax ≡ true → leb_bytes umin f.meta.key_max ≡ true → ⊥
    both t v = ground (arith, t, v, h)

    leb-false : (a b : Bytes) → leb_bytes a b ≡ false → cmp_bytes b a ≡ lt
    leb-false a b u = elim (Ordering-cases (cmp_bytes a b)) [
      | inl l ↦ absurd (no_lt l)
      | inr (inl l) ↦ absurd (no_eq l)
      | inr (inr l) ↦ cmp_bytes-gt a b l
    ]
      where
        no_lt : cmp_bytes a b ≡ lt → ⊥
        no_lt l = ground (arith, u, l)

        no_eq : cmp_bytes a b ≡ eq → ⊥
        no_eq l = ground (arith, u, l)

overlaps-true :
    (umin umax : Bytes) (f : DataFileMeta)
    → overlaps umin umax f ≡ true
    → is_nil f.meta.key_max ≡ false
    → (leb_bytes f.meta.key_min umax ≡ true) × (leb_bytes umin f.meta.key_max ≡ true)
unfolding overlaps
overlaps-true umin umax f h n = (low (Bool-cases (is_nil f.meta.key_min)), ground (arith, h, n))
  where
    nil-leb : (a : Bytes) → is_nil a ≡ true → leb_bytes a umax ≡ true
    nil-leb [] z = least umax
      where
        least : (b : Bytes) → leb_bytes [] b ≡ true
        least [] = unfold cmp_bytes in refl
        least (x ∷ b) = unfold cmp_bytes in refl
    nil-leb (x ∷ a) z = cc

    low :
        (is_nil f.meta.key_min ≡ true) ⊎ (is_nil f.meta.key_min ≡ false)
        → leb_bytes f.meta.key_min umax ≡ true
    low (inl z) = nil-leb f.meta.key_min z
    low (inr z) = ground (arith, h, z)

leb-lt : (a b c : Bytes) → leb_bytes a b ≡ true → cmp_bytes b c ≡ lt → cmp_bytes a c ≡ lt
leb-lt a b c h l = elim (leb-cases a b h) [
  | inl m ↦ cmp_bytes_trans a b c m l
  | inr e ↦ ap (λ x. cmp_bytes x c) e ∙ l
]

lt-then_leb : (a b c : Bytes) → cmp_bytes a b ≡ lt → leb_bytes b c ≡ true → cmp_bytes a c ≡ lt
lt-then_leb a b c l h = elim (leb-cases b c h) [
  | inl m ↦ cmp_bytes_trans a b c l m
  | inr e ↦ ap (cmp_bytes a) (sym e) ∙ l
]

lt_irrefl : (a : Bytes) → cmp_bytes a a ≡ lt → ⊥
lt_irrefl a l = let e = cmp_bytes_refl a in cc

-- A key of a file that is rewritten: one within the union, or in a file that is pulled in
abbrev pub Within : Bytes → Bytes → List DataFileMeta → Bytes → Type 0
Within umin umax level k =
    ((leb_bytes umin k ≡ true) × (leb_bytes k umax ≡ true))
    ⊎ ((p : DataFileMeta) × Member p level
        × (overlaps umin umax p ≡ true)
        × (leb_bytes p.meta.key_min k ≡ true)
        × (leb_bytes k p.meta.key_max ≡ true))

module _ (umin umax : Bytes) (level : List DataFileMeta) (apart : Disjoint level)
    (bounded : All (λ f. is_nil f.meta.key_max ≡ false) level) (r : DataFileMeta)
    (here : Member r level) (kept : overlaps umin umax r ≡ false) where
  pulled-side :
      (p : DataFileMeta) → Member p level → overlaps umin umax p ≡ true → Before p r ⊎ Before r p
  pulled-side p m o = elim (Disjoint-pair p r level apart m here) [
    | inl e ↦ absurd (differ (ap (overlaps umin umax) e))
    | inr s ↦ s
  ]
    where
      differ : overlaps umin umax p ≡ overlaps umin umax r → ⊥
      differ e = cc

  keys_below :
      cmp_bytes umax r.meta.key_min ≡ lt
      → (k : Bytes) → Within umin umax level k
      → cmp_bytes k r.meta.key_min ≡ lt
  keys_below l k (inl (a, b)) = leb-lt k umax r.meta.key_min b l
  keys_below l k (inr (p, m, o, a, b)) = elim (pulled-side p m o) [
    | inl s ↦ leb-lt k p.meta.key_max r.meta.key_min b s
    | inr s ↦
        let (low, high) =
          overlaps-true umin umax p o
            (All-Member (λ f. is_nil f.meta.key_max ≡ false) p level bounded m) in
        absurd (
          lt_irrefl r.meta.key_max (
            cmp_bytes_trans r.meta.key_max p.meta.key_min r.meta.key_max s (
              lt-then_leb p.meta.key_min r.meta.key_min r.meta.key_max
                (leb-lt p.meta.key_min umax r.meta.key_min low l)
                (Disjoint-range r level apart here))))
  ]

  keys_above :
      cmp_bytes r.meta.key_max umin ≡ lt
      → (k : Bytes) → Within umin umax level k
      → cmp_bytes r.meta.key_max k ≡ lt
  keys_above l k (inl (a, b)) = lt-then_leb r.meta.key_max umin k l a
  keys_above l k (inr (p, m, o, a, b)) = elim (pulled-side p m o) [
    | inr s ↦ lt-then_leb r.meta.key_max p.meta.key_min k s a
    | inl s ↦
        let (low, high) =
          overlaps-true umin umax p o
            (All-Member (λ f. is_nil f.meta.key_max ≡ false) p level bounded m) in
        absurd (
          lt_irrefl p.meta.key_max (
            cmp_bytes_trans p.meta.key_max r.meta.key_min p.meta.key_max s (
              leb-lt r.meta.key_min r.meta.key_max p.meta.key_max
                (Disjoint-range r level apart here)
                (lt-then_leb r.meta.key_max umin p.meta.key_max l high))))
  ]

  pub one_side :
      ((k : Bytes) → Within umin umax level k → cmp_bytes k r.meta.key_min ≡ lt)
      ⊎ ((k : Bytes) → Within umin umax level k → cmp_bytes r.meta.key_max k ≡ lt)
  one_side = elim (overlaps-false umin umax r kept) [
    | inl l ↦ inl (keys_below l)
    | inr l ↦ inr (keys_above l)
  ]
