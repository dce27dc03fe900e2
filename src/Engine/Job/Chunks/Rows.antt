-- ===== src/Engine/Job/Chunks/Rows.antt =====
-- The rows of the chunks of a compaction's output (engine/compaction/job.rs).
use merutable.Bytes.{Bytes}
use merutable.Engine.Compaction.{CompactionEntry}
use merutable.Engine.Job.{
  OutputChunk, empty_chunk, push, entry_bytes, has_no_rows, starts_chunk, split_chunks, is_nil,
}
use merutable.Iceberg.Version.{leb_bytes}
use merutable.Types.Key.{InternalKey, user_key_bytes}
use merutable.Types.Value.{Row}
use merutable.Prelude.{
  ℕ, true, false, List, [], ◌∷◌, ◌≡◌, inl, inr, ◌∙◌, ◌++◌, All, refl, ap, Bool-cases, append_assoc,
}

abbrev pub uk_of : CompactionEntry → Bytes
uk_of e = user_key_bytes e.ikey

abbrev pub row_pair : CompactionEntry → InternalKey × Row
row_pair e = (e.ikey, e.row)

abbrev pub rows_of : List CompactionEntry → List (InternalKey × Row)
rows_of [] = []
rows_of (e ∷ es) = row_pair e ∷ rows_of es

-- The rows of all chunks, in order
abbrev pub all_rows : List OutputChunk → List (InternalKey × Row)
all_rows [] = []
all_rows (c ∷ cs) = c.rows ++ all_rows cs

-- User keys are not empty and do not fall.
abbrev pub Sorted : List CompactionEntry → Type 0
Sorted [] = Unit
Sorted (e ∷ es) =
    (is_nil (uk_of e) ≡ false) × All (λ f. leb_bytes (uk_of e) (uk_of f) ≡ true) es × Sorted es

pub push-rows :
    (c : OutputChunk) (e : CompactionEntry) (n : ℕ)
    → (push c e.ikey e.row n).rows ≡ c.rows ++ row_pair e ∷ []
unfolding push
push-rows c e n = refl

has_no_rows-nil : (c : OutputChunk) → has_no_rows c ≡ true → c.rows ≡ []
unfolding has_no_rows
has_no_rows-nil c h = go c.rows refl
  where
    go : (rs : List (InternalKey × Row)) → c.rows ≡ rs → c.rows ≡ []
    go [] q = q
    go (r ∷ rs) q = let h' = rw (q, has_no_rows) at h in cc

-- No row is lost, and none is added or moved.
pub split_chunks-rows :
    (c : OutputChunk) (es : List CompactionEntry)
    → all_rows (split_chunks c es) ≡ c.rows ++ rows_of es
unfolding split_chunks
split_chunks-rows c [] = elim (Bool-cases (has_no_rows c)) [
  | inl t ↦ rw (t, has_no_rows-nil c t) refl
  | inr u ↦ rw u refl
]
split_chunks-rows c (e ∷ es) = elim (Bool-cases (starts_chunk c e)) [
  | inl t ↦
      rw (t, split_chunks)
        (ap (λ r. c.rows ++ r)
          (split_chunks-rows (push empty_chunk e.ikey e.row (entry_bytes e)) es
            ∙ rw (push-rows empty_chunk e (entry_bytes e)) refl))
  | inr u ↦
      rw (u, split_chunks)
        (split_chunks-rows (push c e.ikey e.row (entry_bytes e)) es
          ∙ rw (push-rows c e (entry_bytes e)) (append_assoc c.rows (row_pair e ∷ []) (rows_of es)))
]
