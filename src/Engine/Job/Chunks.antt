-- ===== src/Engine/Job/Chunks.antt =====
-- The output files of a compaction (engine/compaction/job.rs): the rows in their order, in key ranges
-- that do not meet.
pub mod Rows
use merutable.Engine.Job.Chunks.Rows.{uk_of, row_pair, rows_of, all_rows, Sorted, split_chunks-rows}
pub mod Bounds
use merutable.Engine.Job.Chunks.Bounds.{
  Bounded, leb_bytes_refl, leb-cases, lt-leb, leb_bytes_trans, not_below_leb, push_empty-key_min,
  push-last, push_empty-Bounded, above, push-key_min, push-Bounded,
}
use merutable.Bytes.{Bytes, cmp_bytes, eq_bytes}
use merutable.Bytes.Order.{cmp_bytes_refl, eq_of_cmp_bytes, eq_bytes_iff}
use merutable.Bytes.Prefix.{cmp_bytes-lt, cmp_bytes_trans}
use merutable.Engine.Compaction.{CompactionEntry}
use merutable.Engine.Job.{
  OutputChunk, empty_chunk, push, entry_bytes, has_no_rows, starts_chunk, split_chunks,
  output_chunks, ltb_bytes, is_nil,
}
use merutable.Iceberg.Version.{leb_bytes}
use merutable.Types.Key.{InternalKey, user_key_bytes}
use merutable.Types.Value.{Row}
use merutable.Prelude.{
  ℕ, Bool, true, false, List, [], ◌∷◌, ◌≡◌, ◌⊎◌, inl, inr, ◌∙◌, ◌++◌, All, lt, gt, Ordering-cases,
  refl, ap, sym, arith, Bool-cases, append_assoc, All-map, All-append,
}

-- Key ranges that do not meet, in order
abbrev pub Separate : List OutputChunk → Type 0
Separate [] = Unit
Separate (c ∷ cs) = Bounded c × All (λ d. cmp_bytes c.key_max d.key_min ≡ lt) cs × Separate cs

-- What starts a chunk lies above the last key of the one before.
starts_chunk-above :
    (c : OutputChunk) (e : CompactionEntry)
    → Bounded c
    → leb_bytes c.last_user_key (uk_of e) ≡ true
    → starts_chunk c e ≡ true
    → cmp_bytes c.key_max (uk_of e) ≡ lt
unfolding starts_chunk
starts_chunk-above c e b h t = elim (leb-cases c.key_max (uk_of e) (above c e 0 b h)) [
  | inl l ↦ l
  | inr q ↦ absurd (same ((eq_bytes_iff c.last_user_key (uk_of e)).1 (b.upper_last ∙ q)))
]
  where
    same : eq_bytes c.last_user_key (uk_of e) ≡ true → ⊥
    same z = ground (arith, z, t)

next_last :
    (c : OutputChunk) (e : CompactionEntry) (n : ℕ) (es : List CompactionEntry)
    → All (λ f. leb_bytes (uk_of e) (uk_of f) ≡ true) es
    → All (λ f. leb_bytes (push c e.ikey e.row n).last_user_key (uk_of f) ≡ true) es
next_last c e n es a = rw (push-last c e n) a

split_chunks-above :
    (k : Bytes) (c : OutputChunk) (es : List CompactionEntry)
    → Bounded c
    → cmp_bytes k c.key_min ≡ lt
    → Sorted es
    → All (λ f. leb_bytes c.last_user_key (uk_of f) ≡ true) es
    → All (λ d. cmp_bytes k d.key_min ≡ lt) (split_chunks c es)
unfolding split_chunks
split_chunks-above k c [] b p s a = rw b.some_row (p, tt)
split_chunks-above k c (e ∷ es) b p s a = elim (Bool-cases (starts_chunk c e)) [
  | inl t ↦
      rw (t, split_chunks)
        (
          p,
          split_chunks-above k (push empty_chunk e.ikey e.row (entry_bytes e)) es
              (push_empty-Bounded e (entry_bytes e) s.0)
              (rw (push_empty-key_min e (entry_bytes e)) (far t)) s.2
              (next_last empty_chunk e (entry_bytes e) es s.1),
        )
  | inr u ↦
      rw (u, split_chunks)
        (split_chunks-above k (push c e.ikey e.row (entry_bytes e)) es
          (push-Bounded c e (entry_bytes e) b a.0) (rw (push-key_min c e (entry_bytes e) b a.0) p)
          s.2 (next_last c e (entry_bytes e) es s.1))
]
  where
    far : starts_chunk c e ≡ true → cmp_bytes k (uk_of e) ≡ lt
    far t =
        cmp_bytes_trans k c.key_max (uk_of e)
          (below_upper (leb-cases c.key_min c.key_max b.ordered)) (starts_chunk-above c e b a.0 t)
      where
        below_upper :
            (cmp_bytes c.key_min c.key_max ≡ lt) ⊎ (c.key_min ≡ c.key_max)
            → cmp_bytes k c.key_max ≡ lt
        below_upper (inl l) = cmp_bytes_trans k c.key_min c.key_max p l
        below_upper (inr q) = ap (cmp_bytes k) (sym q) ∙ p

split_chunks-Separate :
    (c : OutputChunk) (es : List CompactionEntry)
    → Bounded c
    → Sorted es
    → All (λ f. leb_bytes c.last_user_key (uk_of f) ≡ true) es
    → Separate (split_chunks c es)
unfolding split_chunks
split_chunks-Separate c [] b s a = rw b.some_row (b, tt, tt)
split_chunks-Separate c (e ∷ es) b s a = elim (Bool-cases (starts_chunk c e)) [
  | inl t ↦
      rw (t, split_chunks)
        (
          b,
          split_chunks-above c.key_max (push empty_chunk e.ikey e.row (entry_bytes e)) es
              (push_empty-Bounded e (entry_bytes e) s.0)
              (rw (push_empty-key_min e (entry_bytes e)) (starts_chunk-above c e b a.0 t)) s.2
              (next_last empty_chunk e (entry_bytes e) es s.1),
          split_chunks-Separate (push empty_chunk e.ikey e.row (entry_bytes e)) es
              (push_empty-Bounded e (entry_bytes e) s.0) s.2
              (next_last empty_chunk e (entry_bytes e) es s.1),
        )
  | inr u ↦
      rw (u, split_chunks)
        (split_chunks-Separate (push c e.ikey e.row (entry_bytes e)) es
          (push-Bounded c e (entry_bytes e) b a.0) s.2 (next_last c e (entry_bytes e) es s.1))
]

-- For entries whose user keys are not empty and do not fall, the chunks hold the rows of all entries
-- in their order. Each chunk has a row, and its bounds hold the user keys of its rows. Each chunk
-- ends below the beginning of every one that follows, so no user key stands in two of them.
pub output_chunks-Separate :
    (es : List CompactionEntry)
    → Sorted es
    → (all_rows (output_chunks es) ≡ rows_of es) × Separate (output_chunks es)
unfolding output_chunks
output_chunks-Separate es s = (split_chunks-rows empty_chunk es, apart es s)
  where
    apart : (es : List CompactionEntry) → Sorted es → Separate (split_chunks empty_chunk es)
    apart [] s = unfold split_chunks has_no_rows in tt
    apart (e ∷ es) s =
        unfold split_chunks starts_chunk has_no_rows in
        split_chunks-Separate (push empty_chunk e.ikey e.row (entry_bytes e)) es
          (push_empty-Bounded e (entry_bytes e) s.0) s.2
          (next_last empty_chunk e (entry_bytes e) es s.1)
