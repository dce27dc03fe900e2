-- ===== src/Engine/Picker.antt =====
-- engine/compaction/picker.rs: which level to compact next and which of its files. The type f64 is
-- an interface: a conversion, a division, the order and two constants.
pub mod Selection
pub mod Oldest
pub mod Pressure
pub mod Jobs
mod Examples
use Prim.Native.String.{String}
use merutable.Engine.Config.{EngineConfig}
use merutable.Iceberg.Version.{DataFileMeta, Version, files_at, l0_file_count, level_bytes}
use merutable.Types.Level.{Level, next_level}
use merutable.Prelude.{
  ℕ, Bool, true, false, List, [], ◌∷◌, Option, none, some, ◌+◌, ◌-◌, ◌%◌, ◌^◌, min, leb, ltb, ◌==◌,
  ◌&&◌, ◌||◌, not, map, if◌then◌else◌, ◌≡◌,
}

-- `f64`. The order of IEEE 754 is irreflexive and transitive, also on what is not a number.
pub record Float : Type 1 where
  pub F : Type 0
  pub of_int : ℕ → F
  pub div : F → F → F
  pub less : F → F → Bool
  pub zero_f : F
  pub one_f : F
  pub less_irrefl : (a : F) → less a a ≡ false
  pub less_trans : (a b c : F) → less a b ≡ true → less b c ≡ true → less a c ≡ true

pub record CompactionPick (F : Type 0) : Type 0 where
  pub input_level : Level
  pub output_level : Level
  pub score : F
  pub input_files : List String

-- `u64::saturating_add`
abbrev pub u64_max : ℕ
u64_max = 2 ^ 64 - 1

abbrev pub saturating_add : ℕ → ℕ → ℕ
saturating_add a b = min (a + b) u64_max

-- `HashSet::contains`
unfoldable pub contains : List Level → Level → Bool
contains [] level = false
contains (l ∷ ls) level = l == level || contains ls level

unfoldable pub level_is_free : List Level → Level → Bool
level_is_free busy_levels lvl =
    not (contains busy_levels lvl) && not (contains busy_levels (next_level lvl))

-- Whether one more file would exceed a cap. A cap of 0 rows disables that cap.
unfoldable pub would_exceed : EngineConfig → ℕ → ℕ → DataFileMeta → Bool
would_exceed config total_bytes total_rows f =
    ltb config.max_compaction_bytes (saturating_add total_bytes f.meta.file_size)
    || ltb 0 config.max_compaction_input_rows
      && ltb config.max_compaction_input_rows (saturating_add total_rows f.meta.num_rows)

-- The loop over the files of a level; `is_empty` is `picked.is_empty()`.
unfoldable pub take_files : EngineConfig → Bool → ℕ → ℕ → List DataFileMeta → List DataFileMeta
take_files config is_empty total_bytes total_rows [] = []
take_files config is_empty total_bytes total_rows (f ∷ fs) =
    let rest =
      take_files config false (saturating_add total_bytes f.meta.file_size)
        (saturating_add total_rows f.meta.num_rows) fs in
    if not is_empty && would_exceed config total_bytes total_rows f then [] else f ∷ rest

-- `sort_by_key(|f| f.meta.seq_min)`, which is stable
unfoldable pub insert_by_seq : DataFileMeta → List DataFileMeta → List DataFileMeta
insert_by_seq f [] = f ∷ []
insert_by_seq f (g ∷ gs) =
    if leb f.meta.seq_min g.meta.seq_min then f ∷ g ∷ gs else g ∷ insert_by_seq f gs

unfoldable pub sort_by_seq : List DataFileMeta → List DataFileMeta
sort_by_seq [] = []
sort_by_seq (f ∷ fs) = insert_by_seq f (sort_by_seq fs)

-- The files of the level in the order in which they are taken
unfoldable pub candidates : Version → Level → List DataFileMeta
candidates version level =
    if level == 0 then sort_by_seq (files_at version 0) else files_at version level

unfoldable pub input_files_at : EngineConfig → Version → Level → List DataFileMeta
input_files_at config version level = take_files config true 0 0 (candidates version level)

module _ (S : Float) where
  -- `cur_best_score`, `cur_best_level` and `found_candidate`
  pub record Best : Type 0 where
    pub cur_best_score : S.F
    pub cur_best_level : Level
    pub found_candidate : Bool

  unfoldable pub improve : Best → S.F → Level → Best
  improve best score level =
      if S.less best.cur_best_score score
      then record { cur_best_score = score; cur_best_level = level; found_candidate = true }
      else best

  unfoldable pub level_score : Version → Level → ℕ → S.F
  level_score version level target = S.div (S.of_int (level_bytes version level)) (S.of_int target)

  -- The body of the loop over `level_target_bytes`
  unfoldable pub consider : Version → List Level → Level → ℕ → Best → Best
  consider version busy_levels level target best =
      if level_is_free busy_levels level && ltb 0 target
      then improve best (level_score version level target) level
      else best

  unfoldable pub score_levels : Version → List Level → ℕ → List ℕ → Best → Best
  score_levels version busy_levels i [] best = best
  score_levels version busy_levels i (target ∷ targets) best =
      score_levels version busy_levels (i + 1) targets
        (consider version busy_levels ((i + 1) % 2 ^ 8) target best)

  unfoldable pub l0_score : Version → EngineConfig → S.F
  l0_score version config =
      S.div (S.of_int (l0_file_count version)) (S.of_int config.l0_compaction_trigger)

  -- The best candidate of the normal path, level 0 first
  unfoldable pub best_candidate : Version → EngineConfig → List Level → Best
  best_candidate version config busy_levels =
      let none_yet : Best = record {
        cur_best_score = S.zero_f;
        cur_best_level = 0;
        found_candidate = false;
      } in
      score_levels version busy_levels 0 config.level_target_bytes (
        if level_is_free busy_levels 0
        then improve none_yet (l0_score version config) 0
        else none_yet)

  unfoldable pub force_l0 : Version → EngineConfig → List Level → Bool
  force_l0 version config busy_levels =
      leb config.l0_slowdown_trigger (l0_file_count version) && level_is_free busy_levels 0

  -- `best_level` and `best_score`, or the early return
  unfoldable pub choose_level : Version → EngineConfig → List Level → Option (Level × S.F)
  choose_level version config busy_levels =
      let best = best_candidate version config busy_levels in
      if force_l0 version config busy_levels
      then some (0, l0_score version config)
      else if not best.found_candidate || S.less best.cur_best_score S.one_f
      then none
      else some (best.cur_best_level, best.cur_best_score)

  abbrev pub pick_of : Level → S.F → List DataFileMeta → Option (CompactionPick S.F)
  pick_of level score [] = none
  pick_of level score (f ∷ fs) = some (record {
    input_level = level;
    output_level = next_level level;
    score = score;
    input_files = map (λ (g : DataFileMeta). g.path) (f ∷ fs);
  })

  unfoldable pub pick_compaction : Version → EngineConfig → List Level → Option (CompactionPick S.F)
  pick_compaction version config busy_levels = elim (choose_level version config busy_levels) [
    | none ↦ none
    | some (level, score) ↦ pick_of level score (input_files_at config version level)
  ]

-- `should_drop_tombstones`
unfoldable pub should_drop_tombstones : Level → ℕ → Bool
should_drop_tombstones output_level num_configured_levels = ltb num_configured_levels output_level
