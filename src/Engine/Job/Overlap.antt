-- ===== src/Engine/Job/Overlap.antt =====
-- The files of the output level that a compaction rewrites (engine/compaction/job.rs), and those that
-- it leaves.
pub mod Union
use merutable.Engine.Job.Overlap.Union.{Lower, Upper, union_range-All}
pub mod Sides
use merutable.Engine.Job.Overlap.Sides.{Member, All-Member, Within, one_side}
use merutable.Bytes.{Bytes, cmp_bytes}
use merutable.Bytes.Order.{cmp_bytes_refl, eq_of_cmp_bytes}
use merutable.Bytes.Prefix.{cmp_bytes-gt, cmp_bytes_trans}
use merutable.Engine.Job.{
  lower_bound, upper_bound, union_range, compute_union_range, overlaps, filter_overlaps, pull_in,
  ltb_bytes, is_nil,
}
use merutable.Engine.Job.Chunks.Bounds.{leb-cases, leb_bytes_trans, leb_bytes_refl, lt-leb}
use merutable.Iceberg.Version.{DataFileMeta, leb_bytes}
use merutable.Iceberg.Version.Search.{Disjoint}
use merutable.Prelude.{
  Bool, true, false, List, [], ◌∷◌, Option, none, some, ◌≡◌, ◌⊎◌, inl, inr, ◌∙◌, All, lt, eq,
  Ordering-cases, refl, ap, sym, arith, Bool-cases, if◌then◌else◌, subst,
}

filter_overlaps-Member :
    (umin umax : Bytes) (p : DataFileMeta) (level : List DataFileMeta)
    → Member p (filter_overlaps umin umax level)
    → Member p level × (overlaps umin umax p ≡ true)
unfolding filter_overlaps
filter_overlaps-Member umin umax p [] m = absurd m
filter_overlaps-Member umin umax p (f ∷ fs) m =
    go (overlaps umin umax f) refl m (filter_overlaps-Member umin umax p fs)
  where
    go :
        (o : Bool)
        → overlaps umin umax f ≡ o
        → Member p (if o then f ∷ filter_overlaps umin umax fs else filter_overlaps umin umax fs)
        → (Member p (filter_overlaps umin umax fs) → Member p fs × (overlaps umin umax p ≡ true))
        → Member p (f ∷ fs) × (overlaps umin umax p ≡ true)
    go true q (inl e) ih = (inl e, ap (overlaps umin umax) e ∙ q)
    go true q (inr n) ih = (inr (ih n).0, (ih n).1)
    go false q n ih = (inr (ih n).0, (ih n).1)

Member-filter_overlaps :
    (umin umax : Bytes) (p : DataFileMeta) (level : List DataFileMeta)
    → Member p level
    → overlaps umin umax p ≡ true
    → Member p (filter_overlaps umin umax level)
unfolding filter_overlaps
Member-filter_overlaps umin umax p [] m o = absurd m
Member-filter_overlaps umin umax p (f ∷ fs) (inl e) o =
    rw (ap (overlaps umin umax) (sym e) ∙ o, filter_overlaps) (inl e)
Member-filter_overlaps umin umax p (f ∷ fs) (inr m) o = elim (Bool-cases (overlaps umin umax f)) [
  | inl t ↦ rw (t, filter_overlaps) (inr (Member-filter_overlaps umin umax p fs m o))
  | inr u ↦ rw (u, filter_overlaps) (Member-filter_overlaps umin umax p fs m o)
]

-- A key is not above the upper bound of a file; one without a bound has no key above it.
abbrev pub AtMost : Bytes → Bytes → Type 0
AtMost k key_max = (is_nil key_max ≡ true) ⊎ (leb_bytes k key_max ≡ true)

-- A key in the range of a file that the job rewrites: one of its inputs, or one that is pulled in
abbrev pub Rewritten : List DataFileMeta → List DataFileMeta → Bytes → Type 0
Rewritten inputs level k =
    (f : DataFileMeta) × (Member f inputs ⊎ Member f (pull_in (compute_union_range inputs) level))
    × (leb_bytes f.meta.key_min k ≡ true)
    × AtMost k f.meta.key_max

-- The same for any two bounds, where every file has an upper bound
abbrev Touched :
    Option Bytes × Option Bytes → List DataFileMeta → List DataFileMeta → Bytes → Type 0
Touched u inputs level k =
    (f : DataFileMeta) × (Member f inputs ⊎ Member f (pull_in u level))
    × (leb_bytes f.meta.key_min k ≡ true)
    × (leb_bytes k f.meta.key_max ≡ true)

abbrev OneSide :
    Option Bytes × Option Bytes → List DataFileMeta → List DataFileMeta → DataFileMeta → Type 0
OneSide u inputs level r =
    ((k : Bytes) → Touched u inputs level k → cmp_bytes k r.meta.key_min ≡ lt)
    ⊎ ((k : Bytes) → Touched u inputs level k → cmp_bytes r.meta.key_max k ≡ lt)

module _ (inputs level : List DataFileMeta) (r : DataFileMeta) (apart : Disjoint level)
    (bounded : All (λ f. is_nil f.meta.key_max ≡ false) level) (here : Member r level) where
  meets_range :
      (umin umax : Bytes)
      → ((f : DataFileMeta)
          → Member f inputs
          → (leb_bytes umin f.meta.key_min ≡ true) × (leb_bytes f.meta.key_max umax ≡ true))
      → (k : Bytes) → Touched (some umin, some umax) inputs level k
      → Within umin umax level k
  unfolding pull_in
  meets_range umin umax held k (f, inl m, a, b) = inl (
    leb_bytes_trans umin f.meta.key_min k (held f m).0 a,
    leb_bytes_trans k f.meta.key_max umax b (held f m).1,
  )
  meets_range umin umax held k (f, inr m, a, b) =
      let (inside, o) = filter_overlaps-Member umin umax f level m in inr (f, inside, o, a, b)

  not_overlapping :
      (umin umax : Bytes)
      → (Member r (pull_in (some umin, some umax) level) → ⊥)
      → overlaps umin umax r ≡ false
  unfolding pull_in
  not_overlapping umin umax n = elim (Bool-cases (overlaps umin umax r)) [
    | inl t ↦ absurd (n (Member-filter_overlaps umin umax r level here t))
    | inr u ↦ u
  ]

  bounds-OneSide :
      (u : Option Bytes × Option Bytes)
      → ((f : DataFileMeta) → Member f inputs → Lower u.0 f.meta.key_min × Upper u.1 f.meta.key_max)
      → (Member r (pull_in u level) → ⊥)
      → OneSide u inputs level r
  unfolding pull_in
  bounds-OneSide (none, hi) held n = inl (λ k t. absurd (untouched k t))
    where
      untouched : (k : Bytes) → Touched (none, hi) inputs level k → ⊥
      untouched k (f, inl m, a, b) = (held f m).0
      untouched k (f, inr m, a, b) = m
  bounds-OneSide (some lo, none) held n = inl (λ k t. absurd (untouched k t))
    where
      untouched : (k : Bytes) → Touched (some lo, none) inputs level k → ⊥
      untouched k (f, inl m, a, b) = (held f m).1
      untouched k (f, inr m, a, b) = m
  bounds-OneSide (some lo, some hi) held n =
      elim (one_side lo hi level apart bounded r here (not_overlapping lo hi n)) [
        | inl s ↦ inl (λ k t. s k (meets_range lo hi held k t))
        | inr s ↦ inr (λ k t. s k (meets_range lo hi held k t))
      ]

compute_union_range-held :
    (inputs : List DataFileMeta) (f : DataFileMeta)
    → Member f inputs
    → Lower (compute_union_range inputs).0 f.meta.key_min
      × Upper (compute_union_range inputs).1 f.meta.key_max
unfolding compute_union_range
compute_union_range-held inputs f m =
    All-Member
      (λ g.
        Lower (union_range none none inputs).0 g.meta.key_min
        × Upper (union_range none none inputs).1 g.meta.key_max)
      f inputs (union_range-All inputs none none) m

AtMost-bounded :
    (k key_max : Bytes) → is_nil key_max ≡ false → AtMost k key_max → leb_bytes k key_max ≡ true
AtMost-bounded k key_max n (inl e) = cc
AtMost-bounded k key_max n (inr e) = e

filter_overlaps-All :
    (P : DataFileMeta → Type 0) (umin umax : Bytes) (level : List DataFileMeta)
    → All P level
    → All P (filter_overlaps umin umax level)
unfolding filter_overlaps
filter_overlaps-All P umin umax [] h = tt
filter_overlaps-All P umin umax (f ∷ fs) (p, h) = elim (Bool-cases (overlaps umin umax f)) [
  | inl t ↦ rw (t, filter_overlaps) (p, filter_overlaps-All P umin umax fs h)
  | inr u ↦ rw (u, filter_overlaps) (filter_overlaps-All P umin umax fs h)
]

pull_in-All :
    (P : DataFileMeta → Type 0) (u : Option Bytes × Option Bytes) (level : List DataFileMeta)
    → All P level
    → All P (pull_in u level)
unfolding pull_in
pull_in-All P (none, hi) level h = tt
pull_in-All P (some lo, none) level h = tt
pull_in-All P (some lo, some hi) level h = filter_overlaps-All P lo hi level h

-- A file that the job rewrites has an upper bound, as all that it can choose from do.
Rewritten-Touched :
    (inputs level : List DataFileMeta)
    → All (λ f. is_nil f.meta.key_max ≡ false) inputs
    → All (λ f. is_nil f.meta.key_max ≡ false) level
    → (k : Bytes) → Rewritten inputs level k
    → Touched (compute_union_range inputs) inputs level k
Rewritten-Touched inputs level hi hl k (f, inl m, a, b) =
    (f, inl m, a, AtMost-bounded k f.meta.key_max (All-Member _ f inputs hi m) b)
Rewritten-Touched inputs level hi hl k (f, inr m, a, b) =
    let pulled = pull_in (compute_union_range inputs) level in
    (
      f,
      inr m,
      a,
      AtMost-bounded k f.meta.key_max
          (All-Member _ f pulled (pull_in-All _ (compute_union_range inputs) level hl) m) b,
    )

-- On an output level whose files are in order and do not overlap, a file that the job does not pull in
-- lies on one side of everything that it rewrites: every key in the range of an input or of a file
-- that is pulled in is below the file's first key, or every one is above its last. The inputs and the
-- files of the output level all have upper bounds: no key_max is empty.
pub pull_in-one_side :
    (inputs level : List DataFileMeta) (r : DataFileMeta)
    → Disjoint level
    → All (λ f. is_nil f.meta.key_max ≡ false) inputs
    → All (λ f. is_nil f.meta.key_max ≡ false) level
    → Member r level
    → (Member r (pull_in (compute_union_range inputs) level) → ⊥)
    → ((k : Bytes) → Rewritten inputs level k → cmp_bytes k r.meta.key_min ≡ lt)
      ⊎ ((k : Bytes) → Rewritten inputs level k → cmp_bytes r.meta.key_max k ≡ lt)
pull_in-one_side inputs level r apart inputs_bounded bounded here kept =
    let touched = Rewritten-Touched inputs level inputs_bounded bounded in
    elim (bounds-OneSide inputs level r apart bounded here (compute_union_range inputs)
      (compute_union_range-held inputs) kept) [
        | inl s ↦ inl (λ k t. s k (touched k t))
        | inr s ↦ inr (λ k t. s k (touched k t))
      ]
