-- ===== src/Engine/Job/Overlap/Union.antt =====
-- The union of the key ranges of a compaction's inputs (engine/compaction/job.rs).
use merutable.Bytes.{Bytes, cmp_bytes}
use merutable.Bytes.Order.{eq_of_cmp_bytes}
use merutable.Bytes.Prefix.{cmp_bytes-gt}
use merutable.Engine.Job.{lower_bound, upper_bound, union_range, ltb_bytes}
use merutable.Engine.Job.Chunks.Bounds.{leb_bytes_trans, leb_bytes_refl, lt-leb}
use merutable.Iceberg.Version.{DataFileMeta, leb_bytes}
use merutable.Prelude.{
  true, false, List, [], ◌∷◌, Option, none, some, ◌≡◌, inl, inr, All, lt, Ordering-cases, arith,
  Bool-cases,
}

-- Bounds of a union: not above and not below what they bound
abbrev pub Lower : Option Bytes → Bytes → Type 0
Lower none k = ⊥
Lower (some m) k = leb_bytes m k ≡ true

abbrev pub Upper : Option Bytes → Bytes → Type 0
Upper none k = ⊥
Upper (some m) k = leb_bytes k m ≡ true

ltb-leb : (a b : Bytes) → ltb_bytes a b ≡ true → leb_bytes a b ≡ true
ltb-leb a b h = ground (arith, h)

not_ltb-leb : (a b : Bytes) → ltb_bytes a b ≡ false → leb_bytes b a ≡ true
not_ltb-leb a b h = elim (Ordering-cases (cmp_bytes a b)) [
  | inl l ↦ absurd (no l)
  | inr (inl l) ↦ rw (eq_of_cmp_bytes a b l) (leb_bytes_refl b)
  | inr (inr l) ↦ lt-leb b a (cmp_bytes-gt a b l)
]
  where
    no : cmp_bytes a b ≡ lt → ⊥
    no l = ground (arith, h, l)

lower_bound-new : (o : Option Bytes) (k : Bytes) → Lower (lower_bound o k) k
unfolding lower_bound
lower_bound-new none k = leb_bytes_refl k
lower_bound-new (some m) k = elim (Bool-cases (ltb_bytes k m)) [
  | inl t ↦ rw (t, lower_bound) (leb_bytes_refl k)
  | inr u ↦ rw (u, lower_bound) (not_ltb-leb k m u)
]

lower_bound-old : (o : Option Bytes) (k j : Bytes) → Lower o j → Lower (lower_bound o k) j
unfolding lower_bound
lower_bound-old none k j h = absurd h
lower_bound-old (some m) k j h = elim (Bool-cases (ltb_bytes k m)) [
  | inl t ↦ rw (t, lower_bound) (leb_bytes_trans k m j (ltb-leb k m t) h)
  | inr u ↦ rw (u, lower_bound) h
]

upper_bound-new : (o : Option Bytes) (k : Bytes) → Upper (upper_bound o k) k
unfolding upper_bound
upper_bound-new none k = leb_bytes_refl k
upper_bound-new (some m) k = elim (Bool-cases (ltb_bytes m k)) [
  | inl t ↦ rw (t, upper_bound) (leb_bytes_refl k)
  | inr u ↦ rw (u, upper_bound) (not_ltb-leb m k u)
]

upper_bound-old : (o : Option Bytes) (k j : Bytes) → Upper o j → Upper (upper_bound o k) j
unfolding upper_bound
upper_bound-old none k j h = absurd h
upper_bound-old (some m) k j h = elim (Bool-cases (ltb_bytes m k)) [
  | inl t ↦ rw (t, upper_bound) (leb_bytes_trans j m k h (ltb-leb m k t))
  | inr u ↦ rw (u, upper_bound) h
]

union_range-old :
    (fs : List DataFileMeta) (lo hi : Option Bytes) (a b : Bytes)
    → Lower lo a
    → Upper hi b
    → Lower (union_range lo hi fs).0 a × Upper (union_range lo hi fs).1 b
unfolding union_range
union_range-old [] lo hi a b p q = (p, q)
union_range-old (f ∷ fs) lo hi a b p q =
    union_range-old fs _ _ a b (lower_bound-old lo f.meta.key_min a p)
      (upper_bound-old hi f.meta.key_max b q)

-- The union holds the range of each input.
pub union_range-All :
    (fs : List DataFileMeta) (lo hi : Option Bytes)
    → All
        (λ f.
          Lower (union_range lo hi fs).0 f.meta.key_min
          × Upper (union_range lo hi fs).1 f.meta.key_max)
        fs
unfolding union_range
union_range-All [] lo hi = tt
union_range-All (f ∷ fs) lo hi = (
  union_range-old fs _ _ f.meta.key_min f.meta.key_max (lower_bound-new lo f.meta.key_min)
      (upper_bound-new hi f.meta.key_max),
  union_range-All fs _ _,
)
