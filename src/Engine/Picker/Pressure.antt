-- ===== src/Engine/Picker/Pressure.antt =====
-- The level that the picker chooses (engine/compaction/picker.rs).
use merutable.Engine.Config.{EngineConfig}
use merutable.Engine.Picker.{
  Float, CompactionPick, level_is_free, Best, improve, level_score, consider, score_levels,
  l0_score, best_candidate, force_l0, choose_level, pick_of, pick_compaction, input_files_at,
}
use merutable.Iceberg.Version.{DataFileMeta, Version}
use merutable.Types.Level.{Level, next_level}
use merutable.Prelude.{
  ℕ, Bool, true, false, List, [], ◌∷◌, Option, none, some, ◌+◌, ◌%◌, ◌^◌, ◌≡◌, ◌<◌, inl, inr, ltb,
  ◌&&◌, refl, arith, Bool-cases, if◌then◌else◌, get_elem?, suc, zero, map, ◌≢◌, lt→ltb, ◌∙◌,
}

module _ (S : Float) (v : Version) (busy : List Level) where
  -- A candidate is free.
  abbrev FreeBest : Best S → Type 0
  FreeBest best = best.found_candidate ≡ true → level_is_free busy best.cur_best_level ≡ true

  consider-FreeBest :
      (level : Level) (target : ℕ) (best : Best S)
      → FreeBest best
      → FreeBest (consider S v busy level target best)
  unfolding consider improve
  consider-FreeBest level target best h = ground arith

  score_levels-FreeBest :
      (i : ℕ) (targets : List ℕ) (best : Best S)
      → FreeBest best
      → FreeBest (score_levels S v busy i targets best)
  unfolding score_levels
  score_levels-FreeBest i [] best h = h
  score_levels-FreeBest i (t ∷ ts) best h =
      score_levels-FreeBest (i + 1) ts _ (consider-FreeBest ((i + 1) % 2 ^ 8) t best h)

  -- A score that does not beat the best so far never will.
  abbrev Beaten : S.F → Best S → Type 0
  Beaten score best = S.less best.cur_best_score score ≡ false

  not_below : (a b c : S.F) → S.less a b ≡ true → S.less a c ≡ false → S.less b c ≡ false
  not_below a b c p q = elim (Bool-cases (S.less b c)) [
    | inl t ↦ absurd (clash (S.less_trans a b c p t) q)
    | inr u ↦ u
  ]
    where
      clash : {x : Bool} → x ≡ true → x ≡ false → ⊥
      clash x y = cc

  improve-Beaten :
      (best : Best S) (score : S.F) (level : Level) → Beaten score (improve S best score level)
  unfolding improve
  improve-Beaten best score level = elim (Bool-cases (S.less best.cur_best_score score)) [
    | inl t ↦ rw t (S.less_irrefl score)
    | inr u ↦ rw u u
  ]

  improve-keeps :
      (best : Best S) (other : S.F) (level : Level) (score : S.F)
      → Beaten score best
      → Beaten score (improve S best other level)
  unfolding improve
  improve-keeps best other level score h = elim (Bool-cases (S.less best.cur_best_score other)) [
    | inl t ↦ rw t (not_below best.cur_best_score other score t h)
    | inr u ↦ rw u h
  ]

  consider-keeps :
      (level : Level) (target : ℕ) (best : Best S) (score : S.F)
      → Beaten score best
      → Beaten score (consider S v busy level target best)
  unfolding consider
  consider-keeps level target best score h =
      elim (Bool-cases (level_is_free busy level && ltb 0 target)) [
        | inl t ↦ rw t (improve-keeps best (level_score S v level target) level score h)
        | inr u ↦ rw u h
      ]

  consider-Beaten :
      (level : Level) (target : ℕ) (best : Best S)
      → level_is_free busy level ≡ true
      → 0 < target
      → Beaten (level_score S v level target) (consider S v busy level target best)
  unfolding consider
  consider-Beaten level target best free p =
      rw (free, lt→ltb 0 target p) (improve-Beaten best (level_score S v level target) level)

  score_levels-keeps :
      (i : ℕ) (targets : List ℕ) (best : Best S) (score : S.F)
      → Beaten score best
      → Beaten score (score_levels S v busy i targets best)
  unfolding score_levels
  score_levels-keeps i [] best score h = h
  score_levels-keeps i (t ∷ ts) best score h =
      score_levels-keeps (i + 1) ts _ score (consider-keeps ((i + 1) % 2 ^ 8) t best score h)

  next : (i j : ℕ) → i + suc j + 1 ≡ i + 1 + j + 1
  next i j = omega arith

  this : (i : ℕ) → i + 0 + 1 ≡ i + 1
  this i = omega arith

  score_levels-Beaten :
      (i : ℕ) (targets : List ℕ) (best : Best S) (j target : ℕ)
      → get_elem? targets j ≡ some target
      → level_is_free busy ((i + j + 1) % 2 ^ 8) ≡ true
      → 0 < target
      → Beaten (level_score S v ((i + j + 1) % 2 ^ 8) target) (score_levels S v busy i targets best)
  unfolding score_levels
  score_levels-Beaten i [] best j target e free p = cc
  score_levels-Beaten i (t ∷ ts) best zero target e free p = score_levels-keeps (i + 1) ts _ _ (
      let same : t ≡ target = cc in
      rw (this i, same) (consider-Beaten ((i + 1) % 2 ^ 8) target best (rw (this i) at free) p))
  score_levels-Beaten i (t ∷ ts) best (suc j) target e free p =
      rw (next i j) (score_levels-Beaten (i + 1) ts _ j target e (rw (next i j) at free) p)

  first_candidate : EngineConfig → Best S
  first_candidate config =
      let none_yet : Best S = record {
        cur_best_score = S.zero_f;
        cur_best_level = 0;
        found_candidate = false;
      } in
      if level_is_free busy 0 then improve S none_yet (l0_score S v config) 0 else none_yet

  first-FreeBest : (config : EngineConfig) → FreeBest (first_candidate config)
  unfolding first_candidate improve
  first-FreeBest config h = ground arith

  best_candidate-FreeBest : (config : EngineConfig) → FreeBest (best_candidate S v config busy)
  unfolding best_candidate first_candidate
  best_candidate-FreeBest config =
      score_levels-FreeBest 0 config.level_target_bytes (first_candidate config)
        (first-FreeBest config)

  -- What a pick is made of
  abbrev Made : EngineConfig → CompactionPick S.F → Type 0
  Made config p =
      (level : Level) × (score : S.F) × (choose_level S v config busy ≡ some (level, score))
      × (pick_of S level score (input_files_at config v level) ≡ some p)

  pick_compaction-Made :
      (config : EngineConfig) (p : CompactionPick S.F)
      → pick_compaction S v config busy ≡ some p
      → Made config p
  unfolding pick_compaction
  pick_compaction-Made config p e = go (choose_level S v config busy) refl
    where
      go : (o : Option (Level × S.F)) → choose_level S v config busy ≡ o → Made config p
      go none q = let h = rw (q, pick_compaction) at e in cc
      go (some (level, score)) q = (level, score, q, rw (q, pick_compaction) at e)

  pick_of_parts :
      (level : Level) (score : S.F) (files : List DataFileMeta) (p : CompactionPick S.F)
      → pick_of S level score files ≡ some p
      → (p.input_level ≡ level)
        × (p.score ≡ score)
        × (p.output_level ≡ next_level level)
        × (p.input_files ≡ map (λ (g : DataFileMeta). g.path) files)
        × (p.input_files ≢ [])
  pick_of_parts level score [] p h = cc
  pick_of_parts level score (f ∷ fs) p h = ground (arith, h)

  choose_level-free :
      (config : EngineConfig) (level : Level) (score : S.F)
      → choose_level S v config busy ≡ some (level, score)
      → level_is_free busy level ≡ true
  unfolding choose_level force_l0
  choose_level-free config level score e = ground (arith, best_candidate-FreeBest config)

  normal-choice :
      (config : EngineConfig) (level : Level) (score : S.F)
      → force_l0 S v config busy ≡ false
      → choose_level S v config busy ≡ some (level, score)
      → (score ≡ (best_candidate S v config busy).cur_best_score) × (S.less score S.one_f ≡ false)
  unfolding choose_level
  normal-choice config level score f e = ground arith

  from_zero : (j : ℕ) → 0 + j + 1 ≡ j + 1
  from_zero j = omega arith

  best_candidate-Beaten :
      (config : EngineConfig) (j target : ℕ)
      → get_elem? config.level_target_bytes j ≡ some target
      → level_is_free busy ((j + 1) % 2 ^ 8) ≡ true
      → 0 < target
      → Beaten (level_score S v ((j + 1) % 2 ^ 8) target) (best_candidate S v config busy)
  unfolding best_candidate first_candidate
  best_candidate-Beaten config j target e free p = rw (← from_zero j) (
      score_levels-Beaten 0 config.level_target_bytes (first_candidate config) j target e
        (rw (← from_zero j) at free) p)

  forced-choice :
      (config : EngineConfig) (level : Level) (score : S.F)
      → force_l0 S v config busy ≡ true
      → choose_level S v config busy ≡ some (level, score)
      → level ≡ 0
  unfolding choose_level
  forced-choice config level score f e = ground (arith, f, e)

  best_candidate-l0 :
      (config : EngineConfig)
      → level_is_free busy 0 ≡ true
      → Beaten (l0_score S v config) (best_candidate S v config busy)
  unfolding best_candidate first_candidate
  best_candidate-l0 config free =
      score_levels-keeps 0 config.level_target_bytes (first_candidate config) _
        (rw free (improve-Beaten _ (l0_score S v config) 0))

-- A pick reads a level and writes the next, neither of which is busy, and it has input files, those
-- that are selected at that level. When the files of level 0 have reached the slowdown trigger and
-- level 0 is free, it picks level 0. Otherwise its score is not below 1, and no level that is free
-- has a higher score: neither level 0 nor one with a positive target.
pub pick_compaction-highest :
    (S : Float) (v : Version) (busy : List Level) (config : EngineConfig) (p : CompactionPick S.F)
    → pick_compaction S v config busy ≡ some p
    → (level_is_free busy p.input_level ≡ true)
      × (p.output_level ≡ next_level p.input_level)
      × (p.input_files ≡ map (λ (g : DataFileMeta). g.path) (input_files_at config v p.input_level))
      × (p.input_files ≢ [])
      × (force_l0 S v config busy ≡ true → p.input_level ≡ 0)
      × (force_l0 S v config busy ≡ false
          → (S.less p.score S.one_f ≡ false)
            × (level_is_free busy 0 ≡ true → S.less p.score (l0_score S v config) ≡ false)
            × ((j target : ℕ)
                → get_elem? config.level_target_bytes j ≡ some target
                → level_is_free busy ((j + 1) % 2 ^ 8) ≡ true
                → 0 < target
                → S.less p.score (level_score S v ((j + 1) % 2 ^ 8) target) ≡ false))
pick_compaction-highest S v busy config p e =
    let (level, score, c, m) = pick_compaction-Made S v busy config p e in
    let (il, sc, ol, fs, ne) = pick_of_parts S v busy level score _ p m in
    (
      rw il (choose_level-free S v busy config level score c),
      rw il ol,
      rw il fs,
      ne,
      λ f. il ∙ forced-choice S v busy config level score f c,
      λ f.
          let (best, above) = normal-choice S v busy config level score f c in
          (
            rw sc above,
            λ free. rw (sc, best) (best_candidate-l0 S v busy config free),
            λ j target g free pos.
                rw (sc, best) (best_candidate-Beaten S v busy config j target g free pos),
          ),
    )
