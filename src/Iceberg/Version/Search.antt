-- ===== src/Iceberg/Version/Search.antt =====
-- The binary search for the file of a key.
use merutable.Iceberg.Version.{
  DataFileMeta, Version, files_at, leb_bytes, partition_point, search_files, find_file_for_key,
}
use merutable.Bytes.{Bytes, cmp_bytes}
use merutable.Prelude.{
  List, Option, ◌≡◌, Bool, ℕ, ◌∷◌, All, lt, none, false, ok, ◌&&◌, true, gt, [], Ordering,
  if◌then◌else◌, Bool-cases, suc, inl, zero, some, arith, Ordering-cases, refl, ap, inr, sym, ◌∙◌,
}
use merutable.Bytes.Prefix.{cmp_bytes-lt, cmp_bytes_trans, cmp_bytes-gt}
use merutable.Bytes.Order.{eq_of_cmp_bytes}
use merutable.Types.Level.{Level}

-- Whether the key range of a file has a key
abbrev pub covers : Bytes → DataFileMeta → Bool
covers k f = leb_bytes f.meta.key_min k && leb_bytes k f.meta.key_max

-- The first file that covers a key, with every file looked at
unfoldable pub first_covering : Bytes → List DataFileMeta → Option DataFileMeta
first_covering k [] = none
first_covering k (f ∷ fs) = let rest = first_covering k fs in if covers k f then some f else rest

-- A level from 1 on: ranges are not empty, and each ends before all that follow begin.
abbrev pub Disjoint : List DataFileMeta → Type 0
Disjoint [] = Unit
Disjoint (f ∷ fs) =
    (leb_bytes f.meta.key_min f.meta.key_max ≡ true)
    × All (λ g. cmp_bytes f.meta.key_max g.meta.key_min ≡ lt) fs
    × Disjoint fs

pub leb-above : (a b c : Bytes) → leb_bytes a b ≡ true → cmp_bytes b c ≡ lt → cmp_bytes a c ≡ lt
leb-above a b c h g = elim (Ordering-cases (cmp_bytes a b)) [
  | inl l ↦ cmp_bytes_trans a b c l g
  | inr (inl e) ↦ ap (λ x. cmp_bytes x c) (eq_of_cmp_bytes a b e) ∙ g
  | inr (inr l) ↦ absurd (no l)
]
  where
    no : cmp_bytes a b ≡ gt → ⊥
    no l = ground (arith, l)

pub lt-above : (a b c : Bytes) → cmp_bytes a b ≡ lt → leb_bytes b c ≡ true → cmp_bytes a c ≡ lt
lt-above a b c h g = elim (Ordering-cases (cmp_bytes b c)) [
  | inl l ↦ cmp_bytes_trans a b c h l
  | inr (inl e) ↦ ap (cmp_bytes a) (sym (eq_of_cmp_bytes b c e)) ∙ h
  | inr (inr l) ↦ absurd (no l)
]
  where
    no : cmp_bytes b c ≡ gt → ⊥
    no l = ground (arith, l)

-- Past the last file that begins at or before the key, none covers it.
none_covers :
    (k : Bytes) (fs : List DataFileMeta)
    → All (λ g. cmp_bytes k g.meta.key_min ≡ lt) fs
    → first_covering k fs ≡ none
unfolding first_covering
none_covers k [] h = refl
none_covers k (f ∷ fs) h = rw (beyond, first_covering) (none_covers k fs h.1)
  where
    beyond : leb_bytes f.meta.key_min k ≡ false
    beyond = rw (cmp_bytes-lt k f.meta.key_min h.0, leb_bytes)

-- What follows a file lies above a key below its end.
rest_above :
    (k b : Bytes) (fs : List DataFileMeta)
    → leb_bytes k b ≡ true
    → All (λ g. cmp_bytes b g.meta.key_min ≡ lt) fs
    → All (λ g. cmp_bytes k g.meta.key_min ≡ lt) fs
rest_above k b [] h g = tt
rest_above k b (f ∷ fs) h g = (leb-above k b f.meta.key_min h g.0, rest_above k b fs h g.1)

pub leb-not : (a b : Bytes) → leb_bytes a b ≡ false → cmp_bytes b a ≡ lt
leb-not a b h = elim (Ordering-cases (cmp_bytes a b)) [
  | inl l ↦ absurd (no (ap test l))
  | inr (inl e) ↦ absurd (no (ap test e))
  | inr (inr l) ↦ cmp_bytes-gt a b l
]
  where
    test : Ordering → Bool
    test o = elim o [ gt ↦ false | _ ↦ true ]

    no : leb_bytes a b ≡ true → ⊥
    no e = cc

lt-leb : (a b : Bytes) → cmp_bytes a b ≡ lt → leb_bytes a b ≡ true
lt-leb a b h = rw (h, leb_bytes)

lt-not_leb : (a b : Bytes) → cmp_bytes a b ≡ lt → leb_bytes b a ≡ false
lt-not_leb a b h = rw (cmp_bytes-lt a b h, leb_bytes)

-- If some file behind `b` begins at or before the key, the key lies above `b`.
begun_above :
    (k b : Bytes) (fs : List DataFileMeta) (i : ℕ)
    → All (λ g. cmp_bytes b g.meta.key_min ≡ lt) fs
    → partition_point k fs ≡ suc i
    → leb_bytes k b ≡ false
unfolding partition_point
begun_above k b [] i h e = absurd (omega (arith, e))
begun_above k b (f ∷ fs) i h e = elim (Bool-cases (leb_bytes f.meta.key_min k)) [
  | inl t ↦ (elim (Bool-cases (leb_bytes k b)) [
    | inr u ↦ u
    | inl u ↦ absurd (clash (lt-not_leb k f.meta.key_min (leb-above k b f.meta.key_min u h.0)) t)
  ])
  | inr u ↦ absurd (omega (arith, stuck u, e))
]
  where
    clash : {x : Bool} → x ≡ false → x ≡ true → ⊥
    clash p q = cc

    stuck :
        leb_bytes f.meta.key_min k ≡ false
        → (if leb_bytes f.meta.key_min k then suc (partition_point k fs) else 0) ≡ 0
    stuck u = rw u

search_step :
    (k : Bytes) (f : DataFileMeta) (fs : List DataFileMeta)
    → Disjoint (f ∷ fs)
    → search_files fs k ≡ ok (first_covering k fs)
    → leb_bytes f.meta.key_min k ≡ true
    → search_files (f ∷ fs) k ≡ ok (first_covering k (f ∷ fs))
unfolding search_files partition_point first_covering
search_step k f fs d ih t = go (partition_point k fs) refl
  where
    first_none : partition_point k fs ≡ 0 → none ≡ first_covering k fs
    first_none e = let q = rw (e, search_files) at ih in cc

    go :
        (n : ℕ)
        → partition_point k fs ≡ n
        → search_files (f ∷ fs) k ≡ ok (first_covering k (f ∷ fs))
    go zero e =
        let nothing_left : none ≡ first_covering k fs = first_none e in
        rw (t, e, ← nothing_left, search_files)
    go (suc i) e =
        rw (t, e, begun_above k f.meta.key_max fs i d.1 e, search_files)
          (rw (e, search_files) at ih)

search_files-first_covering :
    (k : Bytes) (fs : List DataFileMeta)
    → Disjoint fs
    → search_files fs k ≡ ok (first_covering k fs)
unfolding search_files partition_point first_covering
search_files-first_covering k [] d = refl
search_files-first_covering k (f ∷ fs) d = elim (Bool-cases (leb_bytes f.meta.key_min k)) [
  | inl t ↦ search_step k f fs d (search_files-first_covering k fs d.2) t
  | inr u ↦
      rw (u, search_files)
        (ap ok (
          sym (
            none_covers k fs
              (rest_above k f.meta.key_max fs (lt-leb k f.meta.key_max (below u)) d.1))))
]
  where
    below : leb_bytes f.meta.key_min k ≡ false → cmp_bytes k f.meta.key_max ≡ lt
    below u = lt-above k f.meta.key_min f.meta.key_max (leb-not f.meta.key_min k u) d.0

-- On a level whose files are in order and do not overlap, the binary search returns the file whose
-- key range has the key, the one that a look at every file finds, and nothing if there is none. It
-- indexes no file that is not there.
pub find_file-first_covering :
    (v : Version) (level : Level) (k : Bytes)
    → Disjoint (files_at v level)
    → find_file_for_key v level k ≡ ok (first_covering k (files_at v level))
unfolding find_file_for_key
find_file-first_covering v level k d = search_files-first_covering k (files_at v level) d
