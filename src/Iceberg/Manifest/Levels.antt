-- ===== src/Iceberg/Manifest/Levels.antt =====
-- The levels that `to_version` of iceberg/manifest.rs builds, and the search for a file in them.
use mathlib.Core.List.{Perm}
use mathlib.Core.List.Perm
use merutable.Bytes.{Bytes, cmp_bytes}
use merutable.Bytes.Order.{cmp_bytes_refl}
use merutable.Bytes.Prefix.{cmp_bytes_trans}
use merutable.Types.Level.{Level}
use merutable.Types.Schema.{TableSchema}
use merutable.Iceberg.Version.{DataFileMeta, files_of, files_at, leb_bytes, find_file_for_key}
use merutable.Iceberg.Version.Search.{
  covers, first_covering, Disjoint, find_file-first_covering, lt-above, leb-above, leb-not,
}
use merutable.Iceberg.Manifest.{
  ManifestEntry, Manifest, is_deleted, to_data_file_meta, push_file, group_levels, insert_file,
  sort_files, newer_first, lower_first, order_of, sort_levels, to_version,
}
use merutable.Prelude.{
  List, ◌≡◌, [], if◌then◌else◌, ◌++◌, ◌∷◌, ◌∙◌, ◌==◌, sym, Bool-cases, ap, arith, inl, append-nil,
  true, ==_iff, refl, ◌⊎◌, inr, false, append_assoc, Bool, lt, All, some, All-map, ◌&&◌, leb, ◌≤◌,
  subst, ok, leb→le,
}

-- The live files of a level, in the order of the entries
abbrev pub live_at : List ManifestEntry → Level → List DataFileMeta
live_at [] l = []
live_at (e ∷ es) l =
    if is_deleted e
    then live_at es l
    else if e.meta.level == l
    then to_data_file_meta e ∷ live_at es l
    else live_at es l

files_of-push_file :
    (level : Level) (f : DataFileMeta) (levels : List (Level × List DataFileMeta)) (j : Level)
    → files_of (push_file level f levels) j
      ≡ (if level == j then files_of levels j ++ f ∷ [] else files_of levels j)
unfolding files_of push_file
files_of-push_file level f [] j = refl
files_of-push_file level f ((l, fs) ∷ levels) j =
    ground (arith, files_of-push_file level f levels j)

files_of-group_levels :
    (es : List ManifestEntry) (levels : List (Level × List DataFileMeta)) (j : Level)
    → files_of (group_levels es levels) j ≡ files_of levels j ++ live_at es j
unfolding group_levels
files_of-group_levels [] levels j = sym (append-nil (files_of levels j))
files_of-group_levels (e ∷ es) levels j = elim (Bool-cases (is_deleted e)) [
  | inl t ↦ rw t (files_of-group_levels es levels j)
  | inr u ↦ rw u (
      rw (files_of-group_levels es (push_file e.meta.level (to_data_file_meta e) levels) j) (
        rw (files_of-push_file e.meta.level (to_data_file_meta e) levels j)
          (placed (Bool-cases (e.meta.level == j)))))
]
  where
    placed :
        ((e.meta.level == j) ≡ true) ⊎ ((e.meta.level == j) ≡ false)
        → (if e.meta.level == j
              then files_of levels j ++ to_data_file_meta e ∷ []
              else files_of levels j)
            ++ live_at es j
          ≡ files_of levels j
            ++ (if e.meta.level == j then to_data_file_meta e ∷ live_at es j else live_at es j)
    placed (inl t) =
        rw t (append_assoc (files_of levels j) (to_data_file_meta e ∷ []) (live_at es j))
    placed (inr u) = rw u

files_of-sort_levels :
    (levels : List (Level × List DataFileMeta)) (j : Level)
    → files_of (sort_levels levels) j ≡ sort_files (order_of j) (files_of levels j)
unfolding files_of sort_levels
files_of-sort_levels [] j = unfold sort_files in refl
files_of-sort_levels ((l, fs) ∷ levels) j = elim (Bool-cases (l == j)) [
  | inl t ↦ rw t (ap (λ k. sort_files (order_of k) fs) ((==_iff l j).0 t))
  | inr u ↦ rw u (files_of-sort_levels levels j)
]

-- A level of the version holds the live files of the manifest, sorted.
pub files_at-to_version :
    (m : Manifest) (schema : TableSchema) (l : Level)
    → files_at (to_version m schema) l ≡ sort_files (order_of l) (live_at m.entries l)
unfolding files_at to_version
files_at-to_version m schema l =
    files_of-sort_levels (group_levels m.entries []) l
    ∙ ap (sort_files (order_of l))
        (files_of-group_levels m.entries [] l ∙ (unfold files_of in refl))

-- The key ranges of two files do not meet.
abbrev pub Apart : DataFileMeta → DataFileMeta → Type 0
Apart f g =
    (cmp_bytes f.meta.key_max g.meta.key_min ≡ lt) ⊎ (cmp_bytes g.meta.key_max f.meta.key_min ≡ lt)

-- Ranges that are not empty and do not meet, in any order
abbrev pub AllApart : List DataFileMeta → Type 0
AllApart [] = Unit
AllApart (f ∷ fs) =
    (leb_bytes f.meta.key_min f.meta.key_max ≡ true) × All (Apart f) fs × AllApart fs

insert_file-All :
    (P : DataFileMeta → Type 0) (before : DataFileMeta → DataFileMeta → Bool) (f : DataFileMeta)
    (gs : List DataFileMeta)
    → P f
    → All P gs
    → All P (insert_file before f gs)
unfolding insert_file
insert_file-All P before f [] p h = (p, tt)
insert_file-All P before f (g ∷ gs) p (q, h) = elim (Bool-cases (before f g)) [
  | inl t ↦ rw t (p, (q, h))
  | inr u ↦ rw u (q, insert_file-All P before f gs p h)
]

sort_files-All :
    (P : DataFileMeta → Type 0) (before : DataFileMeta → DataFileMeta → Bool)
    (fs : List DataFileMeta)
    → All P fs
    → All P (sort_files before fs)
unfolding sort_files
sort_files-All P before [] h = tt
sort_files-All P before (f ∷ fs) (p, h) =
    insert_file-All P before f (sort_files before fs) p (sort_files-All P before fs h)

lt_irrefl : (a : Bytes) → cmp_bytes a a ≡ lt → ⊥
lt_irrefl a l = let e = cmp_bytes_refl a in cc

-- A range begins before it ends, so it does not end before it begins.
no_loop : (a b c : Bytes) → leb_bytes a b ≡ true → cmp_bytes b c ≡ lt → leb_bytes c a ≡ true → ⊥
no_loop a b c h l g = lt_irrefl a (lt-above a c a (leb-above a b c h l) g)

insert_file-Disjoint :
    (f : DataFileMeta) (gs : List DataFileMeta)
    → leb_bytes f.meta.key_min f.meta.key_max ≡ true
    → All (Apart f) gs
    → Disjoint gs
    → Disjoint (insert_file lower_first f gs)
unfolding insert_file
insert_file-Disjoint f [] o a d = (o, tt, tt)
insert_file-Disjoint f (g ∷ gs) o (a, as_) (og, ag, d) =
    elim (Bool-cases (leb_bytes f.meta.key_min g.meta.key_min)) [
      | inl t ↦
          (let front : cmp_bytes f.meta.key_max g.meta.key_min ≡ lt = elim a [
            | inl l ↦ l
            | inr l ↦ absurd (no_loop g.meta.key_min g.meta.key_max f.meta.key_min og l t)
          ] in
            rw t (
              o,
              (
                front,
                All-map _ _
                    (λ h p.
                      cmp_bytes_trans f.meta.key_max g.meta.key_min h.meta.key_min front
                        (leb-above g.meta.key_min g.meta.key_max h.meta.key_min og p))
                    gs ag,
              ),
              (og, ag, d),
            ))
      | inr u ↦
          (let behind : cmp_bytes g.meta.key_max f.meta.key_min ≡ lt = elim a [
            | inr l ↦ l
            | inl l ↦ absurd (
                lt_irrefl f.meta.key_min (
                  cmp_bytes_trans f.meta.key_min g.meta.key_min f.meta.key_min
                    (leb-above f.meta.key_min f.meta.key_max g.meta.key_min o l)
                    (leb-not f.meta.key_min g.meta.key_min u)))
          ] in
            rw u (
              og,
              insert_file-All (λ h. cmp_bytes g.meta.key_max h.meta.key_min ≡ lt) lower_first f gs
                  behind ag,
              insert_file-Disjoint f gs o as_ d,
            ))
    ]

sort_files-Disjoint : (fs : List DataFileMeta) → AllApart fs → Disjoint (sort_files lower_first fs)
unfolding sort_files
sort_files-Disjoint [] h = tt
sort_files-Disjoint (f ∷ fs) (o, a, h) =
    insert_file-Disjoint f (sort_files lower_first fs) o (sort_files-All (Apart f) lower_first fs a)
      (sort_files-Disjoint fs h)

both : (a b : Bool) → (a && b) ≡ true → (a ≡ true) × (b ≡ true)
both true b h = (refl, h)
both false b h = cc

-- A key lies in one range at most.
covers_once :
    (k : Bytes) (f g : DataFileMeta) → Apart f g → covers k f ≡ true → covers k g ≡ true → ⊥
covers_once k f g (inl l) p q =
    no_loop k f.meta.key_max g.meta.key_min (both _ _ p).1 l (both _ _ q).0
covers_once k f g (inr l) p q =
    no_loop k g.meta.key_max f.meta.key_min (both _ _ q).1 l (both _ _ p).0

first_covering-insert_file :
    (k : Bytes) (before : DataFileMeta → DataFileMeta → Bool) (f : DataFileMeta)
    (gs : List DataFileMeta)
    → All (Apart f) gs
    → first_covering k (insert_file before f gs) ≡ first_covering k (f ∷ gs)
unfolding insert_file first_covering
first_covering-insert_file k before f [] a = refl
first_covering-insert_file k before f (g ∷ gs) (a, as_) = elim (Bool-cases (before f g)) [
  | inl t ↦ rw t
  | inr u ↦ rw u (
      rw (first_covering-insert_file k before f gs as_)
        (other (Bool-cases (covers k f)) (Bool-cases (covers k g))))
]
  where
    other :
        (covers k f ≡ true) ⊎ (covers k f ≡ false)
        → (covers k g ≡ true) ⊎ (covers k g ≡ false)
        → (if covers k g then some g else if covers k f then some f else first_covering k gs)
          ≡ (if covers k f then some f else if covers k g then some g else first_covering k gs)
    other (inl p) (inl q) = absurd (covers_once k f g a p q)
    other (inl p) (inr q) = rw (p, q)
    other (inr p) (inl q) = rw (p, q)
    other (inr p) (inr q) = rw (p, q)

first_covering-cons :
    (k : Bytes) (f : DataFileMeta) (fs gs : List DataFileMeta)
    → first_covering k fs ≡ first_covering k gs
    → first_covering k (f ∷ fs) ≡ first_covering k (f ∷ gs)
unfolding first_covering
first_covering-cons k f fs gs e = ap (λ r. if covers k f then some f else r) e

first_covering-sort_files :
    (k : Bytes) (before : DataFileMeta → DataFileMeta → Bool) (fs : List DataFileMeta)
    → AllApart fs
    → first_covering k (sort_files before fs) ≡ first_covering k fs
unfolding sort_files
first_covering-sort_files k before [] h = refl
first_covering-sort_files k before (f ∷ fs) (o, a, h) =
    first_covering-insert_file k before f (sort_files before fs)
      (sort_files-All (Apart f) before fs a)
    ∙ first_covering-cons k f (sort_files before fs) fs (first_covering-sort_files k before fs h)

-- On a level from 1 on whose live files have key ranges that are not empty and do not meet, in whatever
-- order the manifest lists them, the search for the file of a key in the version that `to_version`
-- builds finds the one live file of the level whose range has the key, and none if there is none.
pub find_file-live_at :
    (m : Manifest) (schema : TableSchema) (l : Level) (k : Bytes)
    → 1 ≤ l
    → AllApart (live_at m.entries l)
    → find_file_for_key (to_version m schema) l k ≡ ok (first_covering k (live_at m.entries l))
find_file-live_at m schema l k h a =
    let from_one : (l == 0) ≡ false = ground (arith, h) in
    let sorted : files_at (to_version m schema) l ≡ sort_files lower_first (live_at m.entries l) =
      files_at-to_version m schema l
      ∙ ap (λ b. sort_files (if b then newer_first else lower_first) (live_at m.entries l))
          from_one in
    find_file-first_covering (to_version m schema) l k
      (subst Disjoint (sym sorted) (sort_files-Disjoint (live_at m.entries l) a))
    ∙ ap (λ fs. ok (first_covering k fs)) sorted
    ∙ ap ok (first_covering-sort_files k lower_first (live_at m.entries l) a)

-- The greatest sequence numbers fall.
abbrev pub Falls : List DataFileMeta → Type 0
Falls [] = Unit
Falls (f ∷ fs) = All (λ g. g.meta.seq_max ≤ f.meta.seq_max) fs × Falls fs

insert_file-Falls :
    (f : DataFileMeta) (gs : List DataFileMeta) → Falls gs → Falls (insert_file newer_first f gs)
unfolding insert_file
insert_file-Falls f [] h = (tt, tt)
insert_file-Falls f (g ∷ gs) (a, h) = elim (Bool-cases (leb g.meta.seq_max f.meta.seq_max)) [
  | inl t ↦
      (let le = leb→le g.meta.seq_max f.meta.seq_max t in
        rw t ((le, All-map _ _ (λ x p. omega (arith, p, le)) gs a), (a, h)))
  | inr u ↦ rw u (
    insert_file-All (λ x. x.meta.seq_max ≤ g.meta.seq_max) newer_first f gs (ground (arith, u)) a,
    insert_file-Falls f gs h,
  )
]

sort_files-Falls : (fs : List DataFileMeta) → Falls (sort_files newer_first fs)
unfolding sort_files
sort_files-Falls [] = tt
sort_files-Falls (f ∷ fs) = insert_file-Falls f (sort_files newer_first fs) (sort_files-Falls fs)

insert_file-perm :
    (before : DataFileMeta → DataFileMeta → Bool) (f : DataFileMeta) (gs : List DataFileMeta)
    → Perm (insert_file before f gs) (f ∷ gs)
unfolding insert_file
insert_file-perm before f [] = Perm.refl _
insert_file-perm before f (g ∷ gs) = elim (Bool-cases (before f g)) [
  | inl t ↦ rw t (Perm.refl _)
  | inr u ↦ rw u (Perm.trans (Perm.cons g (insert_file-perm before f gs)) (Perm.swap f g gs))
]

sort_files-perm :
    (before : DataFileMeta → DataFileMeta → Bool) (fs : List DataFileMeta)
    → Perm (sort_files before fs) fs
unfolding sort_files
sort_files-perm before [] = Perm.refl _
sort_files-perm before (f ∷ fs) =
    Perm.trans (insert_file-perm before f (sort_files before fs))
      (Perm.cons f (sort_files-perm before fs))

-- Each level of the version that `to_version` builds has exactly the live files of the manifest at that
-- level, each as often as it is listed there; on level 0 their greatest sequence numbers do not rise.
pub to_version-perm :
    (m : Manifest) (schema : TableSchema) (l : Level)
    → Perm (files_at (to_version m schema) l) (live_at m.entries l)
      × Falls (files_at (to_version m schema) 0)
to_version-perm m schema l = (
  subst (λ fs. Perm fs (live_at m.entries l)) (sym (files_at-to_version m schema l))
      (sort_files-perm (order_of l) (live_at m.entries l)),
  subst Falls (sym (files_at-to_version m schema 0)) (sort_files-Falls (live_at m.entries 0)),
)
