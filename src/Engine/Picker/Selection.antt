-- ===== src/Engine/Picker/Selection.antt =====
-- The input files of a compaction (engine/compaction/picker.rs): caps, progress and order.
use merutable.Engine.Config.{EngineConfig}
use merutable.Engine.Picker.{u64_max, saturating_add, would_exceed, take_files}
use merutable.Iceberg.Version.{DataFileMeta}
use merutable.Prelude.{
  ℕ, Bool, true, false, List, [], ◌∷◌, ◌++◌, ◌+◌, ◌≡◌, ◌≤◌, ◌<◌, ◌⊎◌, inl, inr, ltb, refl, ap,
  arith, length, Bool-cases,
}

abbrev pub bytes_in : List DataFileMeta → ℕ
bytes_in [] = 0
bytes_in (f ∷ fs) = f.meta.file_size + bytes_in fs

abbrev pub rows_in : List DataFileMeta → ℕ
rows_in [] = 0
rows_in (f ∷ fs) = f.meta.num_rows + rows_in fs

-- The caps at a number of bytes and of rows
abbrev pub Fits : EngineConfig → ℕ → ℕ → Type 0
Fits config bytes rows =
    (bytes ≤ config.max_compaction_bytes)
    × ((config.max_compaction_input_rows ≡ 0) ⊎ (rows ≤ config.max_compaction_input_rows))

module _ (config : EngineConfig) where
  would_exceed-false :
      (b r : ℕ) (f : DataFileMeta)
      → would_exceed config b r f ≡ false
      → Fits config (saturating_add b f.meta.file_size) (saturating_add r f.meta.num_rows)
  unfolding would_exceed
  would_exceed-false b r f h = (ground arith, rows)
    where
      rows :
          (config.max_compaction_input_rows ≡ 0)
          ⊎ (saturating_add r f.meta.num_rows ≤ config.max_compaction_input_rows)
      rows = elim (Bool-cases (ltb 0 config.max_compaction_input_rows)) [
        | inl t ↦ inr (ground arith)
        | inr u ↦ inl (ground arith)
      ]

  would_exceed-true :
      (b r : ℕ) (f : DataFileMeta)
      → would_exceed config b r f ≡ true
      → (config.max_compaction_bytes < saturating_add b f.meta.file_size)
        ⊎ ((0 < config.max_compaction_input_rows)
            × (config.max_compaction_input_rows < saturating_add r f.meta.num_rows))
  unfolding would_exceed
  would_exceed-true b r f h =
      elim (Bool-cases (ltb config.max_compaction_bytes (saturating_add b f.meta.file_size))) [
        | inl t ↦ inl (ground arith)
        | inr u ↦ inr (ground arith, ground arith)
      ]

  Fits-mono : (x y x' y' : ℕ) → Fits config x y → x' ≤ x → y' ≤ y → Fits config x' y'
  Fits-mono x y x' y' (h, inl z) p q = (omega arith, inl z)
  Fits-mono x y x' y' (h, inr z) p q = (omega arith, inr (omega arith))

  saturating_add-saturating_add :
      (a s t : ℕ) → saturating_add a (s + t) ≡ saturating_add (saturating_add a s) t
  saturating_add-saturating_add a s t = omega arith

  -- A loop that has taken a file takes no more, or stays within the caps.
  take_files-Fits :
      (b r : ℕ) (fs : List DataFileMeta)
      → (take_files config false b r fs ≡ [])
        ⊎ Fits config
            (saturating_add b (bytes_in (take_files config false b r fs)))
            (saturating_add r (rows_in (take_files config false b r fs)))
  unfolding take_files
  take_files-Fits b r [] = inl refl
  take_files-Fits b r (f ∷ fs) = elim (Bool-cases (would_exceed config b r f)) [
    | inl t ↦ inl (rw t)
    | inr u ↦ inr (rw u (joined (would_exceed-false b r f u) (take_files-Fits b' r' fs)))
  ]
    where
      b' : ℕ
      b' = saturating_add b f.meta.file_size

      r' : ℕ
      r' = saturating_add r f.meta.num_rows

      after : List DataFileMeta
      after = take_files config false b' r' fs

      regroup :
          Fits config (saturating_add b' (bytes_in after)) (saturating_add r' (rows_in after))
          → Fits config
              (saturating_add b (f.meta.file_size + bytes_in after))
              (saturating_add r (f.meta.num_rows + rows_in after))
      regroup h =
          rw
            (
              saturating_add-saturating_add b f.meta.file_size (bytes_in after),
              saturating_add-saturating_add r f.meta.num_rows (rows_in after),
            )
            h

      joined :
          Fits config b' r'
          → (after ≡ [])
            ⊎ Fits config (saturating_add b' (bytes_in after)) (saturating_add r' (rows_in after))
          → Fits config
              (saturating_add b (f.meta.file_size + bytes_in after))
              (saturating_add r (f.meta.num_rows + rows_in after))
      joined h (inl e) = regroup (rw e (Fits-mono b' r' _ _ h (omega arith) (omega arith)))
      joined h (inr g) = regroup g

  -- A compaction takes one file at most, or files whose bytes and rows together are within the caps:
  -- at most `max_compaction_bytes`, and, unless that cap is 0 and so disabled, at most
  -- `max_compaction_input_rows`. The caps are below the largest u64.
  pub take_files-within :
      (fs : List DataFileMeta)
      → config.max_compaction_bytes < u64_max
      → config.max_compaction_input_rows < u64_max
      → (length (take_files config true 0 0 fs) ≤ 1)
        ⊎ Fits config
            (bytes_in (take_files config true 0 0 fs))
            (rows_in (take_files config true 0 0 fs))
  unfolding take_files
  take_files-within [] hb hr = inl (omega arith)
  take_files-within (f ∷ fs) hb hr =
      elim (take_files-Fits (saturating_add 0 f.meta.file_size) (saturating_add 0 f.meta.num_rows)
        fs) [ inl e ↦ inl (rw e (omega arith)) | inr h ↦ inr (plain h) ]
    where
      after : List DataFileMeta
      after =
          take_files config false (saturating_add 0 f.meta.file_size)
            (saturating_add 0 f.meta.num_rows) fs

      plain :
          Fits config
            (saturating_add (saturating_add 0 f.meta.file_size) (bytes_in after))
            (saturating_add (saturating_add 0 f.meta.num_rows) (rows_in after))
          → Fits config (f.meta.file_size + bytes_in after) (f.meta.num_rows + rows_in after)
      plain (h, inl z) = (omega arith, inl z)
      plain (h, inr z) = (omega arith, inr (omega arith))

  -- With a number of bytes and rows taken, what follows is nothing, or begins with a file that would
  -- go past a cap.
  abbrev pub Blocked : ℕ → ℕ → List DataFileMeta → Type 0
  Blocked bytes rows [] = Unit
  Blocked bytes rows (g ∷ gs) =
      (config.max_compaction_bytes < bytes + g.meta.file_size)
      ⊎ ((0 < config.max_compaction_input_rows)
          × (config.max_compaction_input_rows < rows + g.meta.num_rows))

  Blocked-eq :
      (b r b' r' : ℕ) (fs : List DataFileMeta) → Blocked b r fs → b ≡ b' → r ≡ r' → Blocked b' r' fs
  Blocked-eq b r b' r' fs h p q = rw (← p, ← q) h

  Blocked-here :
      (b r B R : ℕ) (f : DataFileMeta) (fs : List DataFileMeta)
      → b ≤ B
      → r ≤ R
      → would_exceed config b r f ≡ true
      → Blocked (B + 0) (R + 0) (f ∷ fs)
  Blocked-here b r B R f fs p q t = elim (would_exceed-true b r f t) [
    | inl h ↦ inl (omega arith)
    | inr (h, g) ↦ inr (h, omega arith)
  ]

  abbrev Split : Bool → ℕ → ℕ → ℕ → ℕ → List DataFileMeta → Type 0
  Split is_empty b r B R fs =
      (rest : List DataFileMeta) × (fs ≡ take_files config is_empty b r fs ++ rest)
      × Blocked (B + bytes_in (take_files config is_empty b r fs))
          (R + rows_in (take_files config is_empty b r fs)) rest

  taken :
      (b r B R : ℕ) (f : DataFileMeta) (fs taken_after : List DataFileMeta)
      → ((rest : List DataFileMeta) × (fs ≡ taken_after ++ rest)
          × Blocked
              (B + f.meta.file_size + bytes_in taken_after)
              (R + f.meta.num_rows + rows_in taken_after)
              rest)
      → (rest : List DataFileMeta) × (f ∷ fs ≡ (f ∷ taken_after) ++ rest)
        × Blocked (B + bytes_in (f ∷ taken_after)) (R + rows_in (f ∷ taken_after)) rest
  taken b r B R f fs taken_after (rest, e, h) = (
    rest,
    ap (λ (t : List DataFileMeta). f ∷ t) e,
    Blocked-eq _ _ _ _ rest h (omega arith) (omega arith),
  )

  take_files-Split : (b r B R : ℕ) (fs : List DataFileMeta) → b ≤ B → r ≤ R → Split false b r B R fs
  unfolding take_files
  take_files-Split b r B R [] p q = ([], refl, tt)
  take_files-Split b r B R (f ∷ fs) p q = elim (Bool-cases (would_exceed config b r f)) [
    | inl t ↦ (f ∷ fs, rw t, rw t (Blocked-here b r B R f fs p q t))
    | inr u ↦ rw u (
        taken b r B R f fs _ (
          take_files-Split (saturating_add b f.meta.file_size) (saturating_add r f.meta.num_rows)
            (B + f.meta.file_size) (R + f.meta.num_rows) fs (omega arith) (omega arith)))
  ]

  -- The files taken are the first of those offered, and as many as the caps let through: they are all,
  -- or the next one would go past a cap. At least one is taken if there is one, and so the first is
  -- taken even where it goes past a cap alone.
  pub take_files-maximal :
      (fs : List DataFileMeta)
      → ((rest : List DataFileMeta) × (fs ≡ take_files config true 0 0 fs ++ rest)
          × Blocked
              (bytes_in (take_files config true 0 0 fs))
              (rows_in (take_files config true 0 0 fs))
              rest)
        × ((take_files config true 0 0 fs ≡ []) → fs ≡ [])
  unfolding take_files
  take_files-maximal [] = (([], refl, tt), λ e. refl)
  take_files-maximal (f ∷ fs) = (
    from_zero (taken 0 0 0 0 f fs _ (take_files-Split _ _ _ _ fs (omega arith) (omega arith))),
    λ e. absurd (omega (arith, ap length e)),
  )
    where
      picks : List DataFileMeta
      picks =
          f
          ∷ take_files config false (saturating_add 0 f.meta.file_size)
              (saturating_add 0 f.meta.num_rows) fs

      from_zero :
          ((rest : List DataFileMeta) × (f ∷ fs ≡ picks ++ rest)
            × Blocked (0 + bytes_in picks) (0 + rows_in picks) rest)
          → (rest : List DataFileMeta) × (f ∷ fs ≡ picks ++ rest)
            × Blocked (bytes_in picks) (rows_in picks) rest
      from_zero (rest, e, h) = (rest, e, Blocked-eq _ _ _ _ rest h (omega arith) (omega arith))
