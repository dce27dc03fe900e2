-- ===== src/Engine/Job/Chunks/Bounds.antt =====
-- The bounds of the chunks of a compaction's output (engine/compaction/job.rs).
use merutable.Bytes.{Bytes, cmp_bytes}
use merutable.Bytes.Order.{cmp_bytes_refl, eq_of_cmp_bytes}
use merutable.Bytes.Prefix.{cmp_bytes-lt, cmp_bytes_trans}
use merutable.Engine.Compaction.{CompactionEntry}
use merutable.Engine.Job.{OutputChunk, empty_chunk, push, has_no_rows, ltb_bytes, is_nil}
use merutable.Iceberg.Version.{leb_bytes}
use merutable.Types.Key.{InternalKey, user_key_bytes}
use merutable.Types.Value.{Row}
use merutable.Prelude.{
  ℕ, Bool, true, false, List, [], ◌∷◌, ◌≡◌, ◌⊎◌, inl, inr, ◌∙◌, ◌++◌, All, lt, gt, Ordering-cases,
  refl, ap, sym, arith, All-map, All-append,
}
use merutable.Engine.Job.Chunks.Rows.{uk_of, row_pair, push-rows}

-- A chunk with rows: its bounds hold its keys, and its upper bound is its last key.
pub record Bounded (c : OutputChunk) : Type 0 where
  pub some_row : has_no_rows c ≡ false
  pub upper_last : c.last_user_key ≡ c.key_max
  pub low_not_nil : is_nil c.key_min ≡ false
  pub ordered : leb_bytes c.key_min c.key_max ≡ true
  pub inside :
      All
        (λ r.
          (leb_bytes c.key_min (user_key_bytes r.0) ≡ true)
          × (leb_bytes (user_key_bytes r.0) c.key_max ≡ true))
        c.rows

pub leb_bytes_refl : (a : Bytes) → leb_bytes a a ≡ true
leb_bytes_refl a = rw (cmp_bytes_refl a, leb_bytes) refl

pub leb-cases : (a b : Bytes) → leb_bytes a b ≡ true → (cmp_bytes a b ≡ lt) ⊎ (a ≡ b)
leb-cases a b h = elim (Ordering-cases (cmp_bytes a b)) [
  | inl l ↦ inl l
  | inr (inl l) ↦ inr (eq_of_cmp_bytes a b l)
  | inr (inr l) ↦ absurd (no l)
]
  where
    no : cmp_bytes a b ≡ gt → ⊥
    no l = ground (arith, l)

pub lt-leb : (a b : Bytes) → cmp_bytes a b ≡ lt → leb_bytes a b ≡ true
lt-leb a b h = rw (h, leb_bytes) refl

pub leb_bytes_trans :
    (a b c : Bytes) → leb_bytes a b ≡ true → leb_bytes b c ≡ true → leb_bytes a c ≡ true
leb_bytes_trans a b c h g = elim (leb-cases a b h) [
  | inr e ↦ ap (λ x. leb_bytes x c) e ∙ g
  | inl l ↦ elim (leb-cases b c g) [
    | inr e ↦ ap (leb_bytes a) (sym e) ∙ h
    | inl m ↦ lt-leb a c (cmp_bytes_trans a b c l m)
  ]
]

nil-below : (a : Bytes) → is_nil a ≡ false → cmp_bytes [] a ≡ lt
unfolding cmp_bytes
nil-below [] h = cc
nil-below (x ∷ a) h = refl

pub not_below_leb : (a b : Bytes) → leb_bytes a b ≡ true → ltb_bytes b a ≡ false
not_below_leb a b h = elim (leb-cases a b h) [
  | inl l ↦ rw (cmp_bytes-lt a b l, ltb_bytes) refl
  | inr e ↦ rw (e, cmp_bytes_refl b, ltb_bytes) refl
]

push_empty-key_max :
    (e : CompactionEntry) (n : ℕ)
    → is_nil (uk_of e) ≡ false
    → (push empty_chunk e.ikey e.row n).key_max ≡ uk_of e
unfolding push
push_empty-key_max e n h = rw (nil-below (uk_of e) h, ltb_bytes) refl

pub push_empty-key_min :
    (e : CompactionEntry) (n : ℕ) → (push empty_chunk e.ikey e.row n).key_min ≡ uk_of e
unfolding push
push_empty-key_min e n = refl

pub push-last :
    (c : OutputChunk) (e : CompactionEntry) (n : ℕ)
    → (push c e.ikey e.row n).last_user_key ≡ uk_of e
unfolding push
push-last c e n = refl

push-some_row :
    (c : OutputChunk) (e : CompactionEntry) (n : ℕ) → has_no_rows (push c e.ikey e.row n) ≡ false
unfolding push has_no_rows
push-some_row c e n = go c.rows
  where
    go :
        (rs : List (InternalKey × Row))
        → (elim (rs ++ row_pair e ∷ []) as (λ _. Bool) [ [] ↦ true | r ∷ q ↦ false ]) ≡ false
    go [] = refl
    go (r ∷ rs) = refl

pub push_empty-Bounded :
    (e : CompactionEntry) (n : ℕ)
    → is_nil (uk_of e) ≡ false
    → Bounded (push empty_chunk e.ikey e.row n)
push_empty-Bounded e n h = record {
  some_row = push-some_row empty_chunk e n;
  upper_last = push-last empty_chunk e n ∙ sym (push_empty-key_max e n h);
  low_not_nil = rw (push_empty-key_min e n) h;
  ordered = rw (push_empty-key_min e n, push_empty-key_max e n h) (leb_bytes_refl (uk_of e));
  inside =
      rw (push-rows empty_chunk e n, push_empty-key_min e n, push_empty-key_max e n h)
        ((leb_bytes_refl (uk_of e), leb_bytes_refl (uk_of e)), tt);
}

module _ (c : OutputChunk) (e : CompactionEntry) (n : ℕ) (b : Bounded c)
    (h : leb_bytes c.last_user_key (uk_of e) ≡ true) where
  pub above : leb_bytes c.key_max (uk_of e) ≡ true
  above = rw b.upper_last at h

  push-key_max : (push c e.ikey e.row n).key_max ≡ uk_of e
  unfolding push
  push-key_max = elim (leb-cases c.key_max (uk_of e) above) [
    | inl l ↦ rw (l, ltb_bytes) refl
    | inr q ↦ rw (← q, cmp_bytes_refl c.key_max, ltb_bytes) refl
  ]

  pub push-key_min : (push c e.ikey e.row n).key_min ≡ c.key_min
  unfolding push
  push-key_min =
      rw
        (
          b.low_not_nil,
          not_below_leb c.key_min (uk_of e)
              (leb_bytes_trans c.key_min c.key_max (uk_of e) b.ordered above),
        )
        refl

  pub push-Bounded : Bounded (push c e.ikey e.row n)
  push-Bounded = record {
    some_row = push-some_row c e n;
    upper_last = push-last c e n ∙ sym push-key_max;
    low_not_nil = rw push-key_min b.low_not_nil;
    ordered =
        rw (push-key_min, push-key_max)
          (leb_bytes_trans c.key_min c.key_max (uk_of e) b.ordered above);
    inside =
        rw (push-rows c e n, push-key_min, push-key_max)
          (All-append _ c.rows (row_pair e ∷ [])
            (All-map _ _
              (λ r p. (p.0, leb_bytes_trans (user_key_bytes r.0) c.key_max (uk_of e) p.1 above))
              c.rows b.inside)
            (
              (
                leb_bytes_trans c.key_min c.key_max (uk_of e) b.ordered above,
                leb_bytes_refl (uk_of e),
              ),
              tt,
            ));
  }
