-- ===== src/Engine/ReadPath/EveryFile.antt =====
-- The lookup in the files (engine/read_path.rs) against a look at every file of every level.
use merutable.Bytes.{Bytes, cmp_bytes}
use merutable.Bytes.Order.{cmp_bytes_refl, eq_of_cmp_bytes}
use merutable.Bytes.Prefix.{cmp_bytes-gt, cmp_bytes-lt, cmp_bytes_trans}
use merutable.Engine.Job.{is_nil, ltb_bytes}
use merutable.Engine.Job.Chunks.Bounds.{leb-cases}
use merutable.Engine.ReadPath.{Hit, range_contains, lookup_l0, lookup_levels, lookup_files}
use merutable.Iceberg.Version.{DataFileMeta, Version, files_at, max_level, leb_bytes}
use merutable.Iceberg.Version.Search.{covers, first_covering, Disjoint, find_file-first_covering}
use merutable.Types.Level.{Level}
use merutable.Types.Sequence.{SeqNum}
use merutable.Prelude.{
  ℕ, zero, suc, Bool, true, false, List, [], ◌∷◌, Option, none, some, ◌+◌, not, ◌&&◌, if◌then◌else◌,
  Result, ok, err, panic, ◌>>=◌, ◌≡◌, ◌∙◌, inl, inr, ◌++◌, All, refl, ap, sym, arith, lt,
  Ordering-cases, Bool-cases,
}

abbrev pub FileGet : Type 0
FileGet = DataFileMeta → Bytes → SeqNum → Result (Option Hit)

-- What a file gives, or else `rest`
abbrev hit_or : Result (Option Hit) → Result (Option Hit) → Result (Option Hit)
hit_or here rest = here >>= λ found. elim found [ some hit ↦ ok (some hit) | none ↦ rest ]

-- The first hit in the order of the files, all of them read until then
unfoldable pub first_hit :
    FileGet → List DataFileMeta → Bytes → SeqNum → Result (Option Hit) → Result (Option Hit)
first_hit file_get [] key read_seq rest = rest
first_hit file_get (f ∷ fs) key read_seq rest =
    hit_or (file_get f key read_seq) (first_hit file_get fs key read_seq rest)

-- The files of `n` levels from `lvl` on
unfoldable pub files_from : Version → ℕ → Level → List DataFileMeta
files_from v zero lvl = []
files_from v (suc n) lvl = files_at v lvl ++ files_from v n (lvl + 1)

-- The levels from `lvl` on are in order and do not overlap.
abbrev pub Leveled : Version → ℕ → Level → Type 0
Leveled v zero lvl = Unit
Leveled v (suc n) lvl = Disjoint (files_at v lvl) × Leveled v n (lvl + 1)

first_hit-append :
    (file_get : FileGet) (xs ys : List DataFileMeta) (key : Bytes) (read_seq : SeqNum)
    (rest : Result (Option Hit))
    → first_hit file_get (xs ++ ys) key read_seq rest
      ≡ first_hit file_get xs key read_seq (first_hit file_get ys key read_seq rest)
unfolding first_hit
first_hit-append file_get [] ys key read_seq rest = refl
first_hit-append file_get (x ∷ xs) ys key read_seq rest =
    ap (hit_or (file_get x key read_seq)) (first_hit-append file_get xs ys key read_seq rest)

leb-not_ltb : (a b : Bytes) → leb_bytes a b ≡ not (ltb_bytes b a)
leb-not_ltb a b = elim (Ordering-cases (cmp_bytes a b)) [
  | inl l ↦ rw (l, cmp_bytes-lt a b l, ltb_bytes, leb_bytes) refl
  | inr (inl l) ↦ rw (eq_of_cmp_bytes a b l, cmp_bytes_refl b, ltb_bytes, leb_bytes) refl
  | inr (inr l) ↦ rw (l, cmp_bytes-gt a b l, ltb_bytes, leb_bytes) refl
]

range_contains-covers :
    (f : DataFileMeta) (key : Bytes)
    → is_nil f.meta.key_min ≡ false
    → is_nil f.meta.key_max ≡ false
    → range_contains f.meta.key_min f.meta.key_max key ≡ covers key f
unfolding range_contains
range_contains-covers f key p q =
    rw (p, q, leb-not_ltb f.meta.key_min key, leb-not_ltb key f.meta.key_max)
      (table (ltb_bytes key f.meta.key_min) (ltb_bytes f.meta.key_max key))
  where
    table :
        (a b : Bool)
        → (if true && a then false else if true && b then false else true) ≡ (not a && not b)
    table true b = refl
    table false true = refl
    table false false = refl

module _ (file_get : FileGet) (v : Version) (key : Bytes) (read_seq : SeqNum)
    (outside : (f : DataFileMeta) → covers key f ≡ false → file_get f key read_seq ≡ ok none) where
  lookup_l0-first_hit :
      (fs : List DataFileMeta)
      → All (λ f. (is_nil f.meta.key_min ≡ false) × (is_nil f.meta.key_max ≡ false)) fs
      → lookup_l0 file_get fs key read_seq ≡ first_hit file_get fs key read_seq (ok none)
  unfolding lookup_l0 first_hit
  lookup_l0-first_hit [] h = refl
  lookup_l0-first_hit (f ∷ fs) h = elim (Bool-cases (covers key f)) [
    | inl t ↦
        rw (range_contains-covers f key h.0.0 h.0.1, t, lookup_l0)
          (ap (hit_or (file_get f key read_seq)) (lookup_l0-first_hit fs h.1))
    | inr u ↦
        rw
          (
            range_contains-covers f key h.0.0 h.0.1,
            u,
            lookup_l0,
            lookup_l0-first_hit fs h.1,
            outside f u,
          )
          refl
  ]

  -- What the covering file gives, or else `rest`
  abbrev covering_hit : Option DataFileMeta → Result (Option Hit) → Result (Option Hit)
  covering_hit none rest = rest
  covering_hit (some f) rest = hit_or (file_get f key read_seq) rest

  past_every :
      (fs : List DataFileMeta) (rest : Result (Option Hit))
      → All (λ g. covers key g ≡ false) fs
      → first_hit file_get fs key read_seq rest ≡ rest
  unfolding first_hit
  past_every [] rest h = refl
  past_every (f ∷ fs) rest h = rw (outside f h.0, past_every fs rest h.1) refl

  -- Past the end of a file that has the key, no file covers it.
  beyond :
      (b : Bytes) (fs : List DataFileMeta)
      → leb_bytes key b ≡ true
      → All (λ g. cmp_bytes b g.meta.key_min ≡ lt) fs
      → All (λ g. covers key g ≡ false) fs
  beyond b [] h a = tt
  beyond b (g ∷ gs) h a = (uncovered, beyond b gs h a.1)
    where
      below : cmp_bytes key g.meta.key_min ≡ lt
      below = elim (leb-cases key b h) [
        | inl l ↦ cmp_bytes_trans key b g.meta.key_min l a.0
        | inr e ↦ ap (λ x. cmp_bytes x g.meta.key_min) e ∙ a.0
      ]

      uncovered : covers key g ≡ false
      uncovered = rw (leb-not_ltb g.meta.key_min key, below, ltb_bytes) refl

  level-first_hit :
      (fs : List DataFileMeta) (rest : Result (Option Hit))
      → Disjoint fs
      → covering_hit (first_covering key fs) rest ≡ first_hit file_get fs key read_seq rest
  unfolding first_covering first_hit
  level-first_hit [] rest d = refl
  level-first_hit (f ∷ fs) rest d = elim (Bool-cases (covers key f)) [
    | inl t ↦
        rw (t, first_covering)
          (ap (hit_or (file_get f key read_seq))
            (sym (past_every fs rest (beyond f.meta.key_max fs (ends t) d.1))))
    | inr u ↦ rw (u, first_covering, outside f u) (level-first_hit fs rest d.2)
  ]
    where
      ends : covers key f ≡ true → leb_bytes key f.meta.key_max ≡ true
      ends t = ground (arith, t)

  lookup_levels-first_hit :
      (n lvl : ℕ)
      → Leveled v n lvl
      → lookup_levels file_get v n lvl key read_seq
        ≡ first_hit file_get (files_from v n lvl) key read_seq (ok none)
  unfolding lookup_levels files_from
  lookup_levels-first_hit zero lvl d = unfold first_hit in refl
  lookup_levels-first_hit (suc n) lvl d = rw (find_file-first_covering v lvl key d.0) (
      step (first_covering key (files_at v lvl)) (lookup_levels file_get v n (lvl + 1) key read_seq)
      ∙ ap (covering_hit (first_covering key (files_at v lvl)))
          (lookup_levels-first_hit n (lvl + 1) d.1)
      ∙ level-first_hit (files_at v lvl) _ d.0
      ∙ sym (
          first_hit-append file_get (files_at v lvl) (files_from v n (lvl + 1)) key read_seq
            (ok none)))
    where
      step :
          (o : Option DataFileMeta) (rest : Result (Option Hit))
          → (elim o as (λ _. Result (Option Hit)) [
            | none ↦ rest
            | some f ↦ (do
              found ← file_get f key read_seq
              elim found [ some hit ↦ ok (some hit) | none ↦ rest ])
          ])
            ≡ covering_hit o rest
      step none rest = refl
      step (some f) rest = refl

  then_levels :
      (fs : List DataFileMeta) (rest : Result (Option Hit))
      → hit_or (first_hit file_get fs key read_seq (ok none)) rest
        ≡ first_hit file_get fs key read_seq rest
  unfolding first_hit
  then_levels [] rest = refl
  then_levels (f ∷ fs) rest =
      go (file_get f key read_seq) ∙ ap (hit_or (file_get f key read_seq)) (then_levels fs rest)
    where
      go :
          (here : Result (Option Hit))
          → hit_or (hit_or here (first_hit file_get fs key read_seq (ok none))) rest
            ≡ hit_or here (hit_or (first_hit file_get fs key read_seq (ok none)) rest)
      go (ok none) = refl
      go (ok (some hit)) = refl
      go (err reason) = refl
      go panic = refl

  -- The lookup gives the first hit among all files of the version, those of level 0 in their order and
  -- then those of each level, as if every one of them was read: the key ranges and the binary searches
  -- leave out no file that has the key, and an error or a panic is that of a file that has it. A file
  -- gives nothing for a key outside its key range, its bounds at level 0 are not empty, and the other
  -- levels are in order and do not overlap.
  pub lookup_files-first_hit :
      All (λ f. (is_nil f.meta.key_min ≡ false) × (is_nil f.meta.key_max ≡ false)) (files_at v 0)
      → Leveled v (max_level v) 1
      → lookup_files file_get v key read_seq
        ≡ first_hit file_get (files_at v 0 ++ files_from v (max_level v) 1) key read_seq (ok none)
  unfolding lookup_files
  lookup_files-first_hit h d = rw (lookup_l0-first_hit (files_at v 0) h) (
      ap (hit_or (first_hit file_get (files_at v 0) key read_seq (ok none)))
        (lookup_levels-first_hit (max_level v) 1 d)
      ∙ then_levels (files_at v 0) _
      ∙ sym (
          first_hit-append file_get (files_at v 0) (files_from v (max_level v) 1) key read_seq
            (ok none)))
