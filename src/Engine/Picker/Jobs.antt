-- ===== src/Engine/Picker/Jobs.antt =====
-- The levels that compaction jobs reserve (engine/compaction/job.rs). Picking and reserving are one
-- step under the lock of the set of busy levels, and so is the release, at once or in a task of its
-- own; each job sees the version and the configuration of its time.
use merutable.Engine.Config.{EngineConfig}
use merutable.Engine.Picker.{Float, CompactionPick, contains, level_is_free, pick_compaction}
use merutable.Engine.Picker.Pressure.{pick_compaction-highest}
use merutable.Iceberg.Version.{Version}
use merutable.Types.Level.{Level, next_level}
use merutable.Prelude.{
  Bool, true, false, List, [], ◌∷◌, ◌++◌, Option, none, some, ◌≡◌, ◌≢◌, ◌==◌, ◌||◌, if◌then◌else◌,
  arith, Bool-cases, inl, inr, refl, subst, ◌∙◌, sym,
}

-- `HashSet::insert` and `HashSet::remove`
unfoldable pub reserve_level : Level → List Level → List Level
reserve_level l busy = if contains busy l then busy else l ∷ busy

unfoldable pub release_level : Level → List Level → List Level
release_level l [] = []
release_level l (b ∷ bs) = if b == l then release_level l bs else b ∷ release_level l bs

-- `reserve_next_compaction`: the pick, and the busy levels after it
unfoldable pub reserve_next_compaction :
    (S : Float) → Version → EngineConfig → List Level → Option (CompactionPick S.F × List Level)
reserve_next_compaction S version config busy = elim (pick_compaction S version config busy) [
  | none ↦ none
  | some pick ↦ some (pick, reserve_level pick.output_level (reserve_level pick.input_level busy))
]

-- `LevelReservation::drop`
unfoldable pub drop_reservation : Level → Level → List Level → List Level
drop_reservation input_level output_level busy =
    release_level output_level (release_level input_level busy)

-- `compacting_levels`, and the input and output level of each job that runs
pub record Workers : Type 0 where
  pub busy : List Level
  pub jobs : List (Level × Level)

module _ (S : Float) where
  pub data Step : Workers → Workers → Type 0 where
    start :
        (w : Workers) (v : Version) (config : EngineConfig) (p : CompactionPick S.F)
        (busy : List Level)
        → reserve_next_compaction S v config w.busy ≡ some (p, busy)
        → Step w (record { busy = busy; jobs = (p.input_level, p.output_level) ∷ w.jobs })
    finish :
        (w : Workers) (before after : List (Level × Level)) (i o : Level)
        → w.jobs ≡ before ++ (i, o) ∷ after
        → Step w (record { busy = drop_reservation i o w.busy; jobs = before ++ after })

  pub data Reached : Workers → Type 0 where
    idle : Reached (record { busy = []; jobs = [] })
    one_more : (w u : Workers) → Reached w → Step w u → Reached u

-- Whether one of the jobs has the level
abbrev pub held : List (Level × Level) → Level → Bool
held [] l = false
held ((i, o) ∷ js) l = (i == l || o == l) || held js l

-- No level belongs to two jobs, and each job has two levels.
abbrev pub Apart : List (Level × Level) → Type 0
Apart [] = Unit
Apart ((i, o) ∷ js) = (i ≢ o) × (held js i ≡ false) × (held js o ≡ false) × Apart js

pub record IsConsistent (w : Workers) : Type 0 where
  pub exact : (l : Level) → contains w.busy l ≡ held w.jobs l
  pub apart : Apart w.jobs

contains-reserve_level :
    (l k : Level) (busy : List Level)
    → contains (reserve_level l busy) k ≡ (l == k || contains busy k)
unfolding reserve_level contains
contains-reserve_level l k busy = ground arith

contains-release_level :
    (l k : Level) (busy : List Level)
    → contains (release_level l busy) k ≡ (if l == k then false else contains busy k)
unfolding release_level contains
contains-release_level l k [] = ground arith
contains-release_level l k (b ∷ bs) = ground (arith, contains-release_level l k bs)

held-append :
    (xs ys : List (Level × Level)) (l : Level) → held (xs ++ ys) l ≡ (held xs l || held ys l)
held-append [] ys l = refl
held-append ((i, o) ∷ xs) ys l = ground (arith, held-append xs ys l)

-- Without one of the jobs the others are apart still, and have none of its levels.
Apart-without :
    (xs ys : List (Level × Level)) (i o : Level)
    → Apart (xs ++ (i, o) ∷ ys)
    → Apart (xs ++ ys) × (held (xs ++ ys) i ≡ false) × (held (xs ++ ys) o ≡ false)
Apart-without [] ys i o h = (h.3, h.1, h.2)
Apart-without ((a, b) ∷ xs) ys i o h =
    let (p, q, r) = Apart-without xs ys i o h.3 in
    let all_a = h.1 in
    let all_b = h.2 in
    ground (
      arith,
      held-append xs ((i, o) ∷ ys) a,
      held-append xs ((i, o) ∷ ys) b,
      held-append xs ys a,
      held-append xs ys b,
    )

next-ne : (l : Level) → l ≢ next_level l
next-ne l e = omega arith

contains-drop :
    (i o k : Level) (busy : List Level)
    → contains (drop_reservation i o busy) k
      ≡ (if o == k then false else if i == k then false else contains busy k)
unfolding drop_reservation
contains-drop i o k busy =
    ground
      (arith, contains-release_level o k (release_level i busy), contains-release_level i k busy)

held-without :
    (xs ys : List (Level × Level)) (i o k : Level)
    → Apart (xs ++ (i, o) ∷ ys)
    → held (xs ++ ys) k
      ≡ (if o == k then false else if i == k then false else held (xs ++ (i, o) ∷ ys) k)
held-without xs ys i o k h =
    let (p, q, r) = Apart-without xs ys i o h in
    elim (Bool-cases (o == k)) [
      | inl t ↦ let e : o ≡ k = ground arith in rw t (rw e at r)
      | inr u ↦ elim (Bool-cases (i == k)) [
        | inl t ↦ let e : i ≡ k = ground arith in rw (u, t) (rw e at q)
        | inr z ↦ ground (arith, u, z, held-append xs ys k, held-append xs ((i, o) ∷ ys) k)
      ]
    ]

finish-IsConsistent :
    (w : Workers) (xs ys : List (Level × Level)) (i o : Level)
    → w.jobs ≡ xs ++ (i, o) ∷ ys
    → IsConsistent w
    → IsConsistent (record { busy = drop_reservation i o w.busy; jobs = xs ++ ys })
finish-IsConsistent w xs ys i o e c =
    let a = subst Apart e c.apart in
    record {
      exact = λ l. rw (contains-drop i o l w.busy, held-without xs ys i o l a, c.exact l, e) refl;
      apart = (Apart-without xs ys i o a).0;
    }

module _ (S : Float) where
  reserve_next-free :
      (v : Version) (config : EngineConfig) (busy after : List Level) (p : CompactionPick S.F)
      → reserve_next_compaction S v config busy ≡ some (p, after)
      → (level_is_free busy p.input_level ≡ true)
        × (p.output_level ≡ next_level p.input_level)
        × (after ≡ reserve_level p.output_level (reserve_level p.input_level busy))
  unfolding reserve_next_compaction
  reserve_next-free v config busy after p e = go (pick_compaction S v config busy) refl
    where
      go :
          (o : Option (CompactionPick S.F))
          → pick_compaction S v config busy ≡ o
          → (level_is_free busy p.input_level ≡ true)
            × (p.output_level ≡ next_level p.input_level)
            × (after ≡ reserve_level p.output_level (reserve_level p.input_level busy))
      go none q = let h = rw (q, reserve_next_compaction) at e in cc
      go (some pick) q =
          let h = rw (q, reserve_next_compaction) at e in
          let all = pick_compaction-highest S v busy config pick q in
          let same : pick ≡ p = cc in (rw (← same) all.0, rw (← same) all.1, cc)

  start-IsConsistent :
      (w : Workers) (p : CompactionPick S.F)
      → level_is_free w.busy p.input_level ≡ true
      → p.output_level ≡ next_level p.input_level
      → IsConsistent w
      → IsConsistent (record {
        busy = reserve_level p.output_level (reserve_level p.input_level w.busy);
        jobs = (p.input_level, p.output_level) ∷ w.jobs;
      })
  unfolding level_is_free
  start-IsConsistent w p free out c = record {
    exact = λ l. ground (
      arith,
      contains-reserve_level p.output_level l (reserve_level p.input_level w.busy),
      contains-reserve_level p.input_level l w.busy,
      c.exact l,
    );
    apart = (
      λ e. next-ne p.input_level (e ∙ out),
      ground (arith, free, c.exact p.input_level),
      ground (arith, free, out, c.exact (next_level p.input_level), c.exact p.output_level),
      c.apart,
    );
  }

  Step-IsConsistent : (w u : Workers) → Step S w u → IsConsistent w → IsConsistent u
  Step-IsConsistent a b (start w v config p busy e) c =
      let (free, out, after) = reserve_next-free v config w.busy busy p e in
      subst
        (λ (l : List Level).
          IsConsistent (record { busy = l; jobs = (p.input_level, p.output_level) ∷ w.jobs }))
        (sym after) (start-IsConsistent w p free out c)
  Step-IsConsistent a b (finish w xs ys i o e) c = finish-IsConsistent w xs ys i o e c

  -- However workers start and finish compactions, the busy levels are those of the jobs that run,
  -- no level is the input or output of two of them, and each has an input level other than its
  -- output level.
  pub Reached-IsConsistent : (w : Workers) → Reached S w → IsConsistent w
  Reached-IsConsistent a idle = record { exact = λ l. nothing l; apart = tt }
    where
      nothing : (l : Level) → contains [] l ≡ held [] l
      nothing l = unfold contains in refl
  Reached-IsConsistent a (one_more w u r s) = Step-IsConsistent w u s (Reached-IsConsistent w r)
