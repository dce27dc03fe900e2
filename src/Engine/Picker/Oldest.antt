-- ===== src/Engine/Picker/Oldest.antt =====
-- The order in which the picker takes the files of level 0 (engine/compaction/picker.rs).
use mathlib.Core.List.{Perm}
use mathlib.Core.List.Perm
use merutable.Engine.Config.{EngineConfig}
use merutable.Engine.Picker.{insert_by_seq, sort_by_seq, take_files, candidates, input_files_at}
use merutable.Engine.Picker.Selection.{take_files-maximal}
use merutable.Iceberg.Version.{DataFileMeta, Version, files_at}
use merutable.Prelude.{
  ℕ, List, [], ◌∷◌, ◌++◌, ◌≤◌, inl, inr, leb, arith, All, Bool-cases, subst, All-map, true,
}

-- Sorted by the lowest sequence number
abbrev Oldest : List DataFileMeta → Type 0
Oldest [] = Unit
Oldest (f ∷ fs) = All (λ g. f.meta.seq_min ≤ g.meta.seq_min) fs × Oldest fs

insert_by_seq-perm :
    (f : DataFileMeta) (gs : List DataFileMeta) → Perm (insert_by_seq f gs) (f ∷ gs)
unfolding insert_by_seq
insert_by_seq-perm f [] = Perm.refl _
insert_by_seq-perm f (g ∷ gs) = elim (Bool-cases (leb f.meta.seq_min g.meta.seq_min)) [
  | inl t ↦ rw t (Perm.refl _)
  | inr u ↦ rw u (Perm.trans (Perm.cons g (insert_by_seq-perm f gs)) (Perm.swap f g gs))
]

sort_by_seq-perm : (fs : List DataFileMeta) → Perm (sort_by_seq fs) fs
unfolding sort_by_seq
sort_by_seq-perm [] = Perm.refl _
sort_by_seq-perm (f ∷ fs) =
    Perm.trans (insert_by_seq-perm f (sort_by_seq fs)) (Perm.cons f (sort_by_seq-perm fs))

insert_by_seq-All :
    (n : ℕ) (f : DataFileMeta) (gs : List DataFileMeta)
    → n ≤ f.meta.seq_min
    → All (λ g. n ≤ g.meta.seq_min) gs
    → All (λ g. n ≤ g.meta.seq_min) (insert_by_seq f gs)
unfolding insert_by_seq
insert_by_seq-All n f [] p q = (p, tt)
insert_by_seq-All n f (g ∷ gs) p q = elim (Bool-cases (leb f.meta.seq_min g.meta.seq_min)) [
  | inl t ↦ rw t (p, q)
  | inr u ↦ rw u (q.0, insert_by_seq-All n f gs p q.1)
]

insert_by_seq-Oldest :
    (f : DataFileMeta) (gs : List DataFileMeta) → Oldest gs → Oldest (insert_by_seq f gs)
unfolding insert_by_seq
insert_by_seq-Oldest f [] h = (tt, tt)
insert_by_seq-Oldest f (g ∷ gs) h = elim (Bool-cases (leb f.meta.seq_min g.meta.seq_min)) [
  | inl t ↦ rw t ((ground arith, All-map _ _ (λ x p. ground (arith, t)) gs h.0), h)
  | inr u ↦
      rw u (insert_by_seq-All g.meta.seq_min f gs (ground arith) h.0, insert_by_seq-Oldest f gs h.1)
]

sort_by_seq-Oldest : (fs : List DataFileMeta) → Oldest (sort_by_seq fs)
unfolding sort_by_seq
sort_by_seq-Oldest [] = tt
sort_by_seq-Oldest (f ∷ fs) = insert_by_seq-Oldest f (sort_by_seq fs) (sort_by_seq-Oldest fs)

All-second : (P : DataFileMeta → Type 0) (xs ys : List DataFileMeta) → All P (xs ++ ys) → All P ys
All-second P [] ys h = h
All-second P (x ∷ xs) ys h = All-second P xs ys h.1

parts_ordered :
    (xs ys : List DataFileMeta)
    → Oldest (xs ++ ys)
    → All (λ f. All (λ g. f.meta.seq_min ≤ g.meta.seq_min) ys) xs
parts_ordered [] ys h = tt
parts_ordered (x ∷ xs) ys h = (All-second _ xs ys h.0, parts_ordered xs ys h.1)

-- At level 0 the files that a compaction takes and the files that it leaves are together the files
-- of the level, and the lowest sequence number of a file taken is at most that of any file left.
pub input_files-oldest :
    (config : EngineConfig) (v : Version)
    → (rest : List DataFileMeta) × Perm (input_files_at config v 0 ++ rest) (files_at v 0)
      × All (λ f. All (λ g. f.meta.seq_min ≤ g.meta.seq_min) rest) (input_files_at config v 0)
unfolding input_files_at candidates
input_files-oldest config v =
    let sorted = sort_by_seq (files_at v 0) in
    let (rest, e, b) = (take_files-maximal config sorted).0 in
    (
      rest,
      subst (λ l. Perm l (files_at v 0)) e (sort_by_seq-perm (files_at v 0)),
      parts_ordered (take_files config true 0 0 sorted) rest
          (subst Oldest e (sort_by_seq-Oldest (files_at v 0))),
    )
