-- ===== src/Engine/Cache/Fresh/Steps.antt =====
-- Readers that fill the row cache (engine/cache.rs) and writers that invalidate it, in any interleaving.
-- A reader here reads what the store has at the time of its step, after it took the generation.
-- `point_lookup` of engine/read_path.rs asks the memtable before it takes the generation, so that a write
-- to the memtable between the two is not seen by its reading of the files: such a reader is no step here.
use merutable.Engine.Cache.{
  CacheEntry, LruCache, RowCache, insert_if_fresh, bump_generation, pop_key, clear_entries,
}
use merutable.Bytes.{Bytes, eq_bytes}
use merutable.Prelude.{
  if◌then◌else◌, ◌≡◌, ℕ, ◌+◌, List, ◌<◌, ◌⊎◌, some, ◌^◌, refl, ◌≢◌, All, ◌-◌, Bool, ◌≤◌, ◌∷◌, false,
  true, ◌++◌, Bool-cases, [], inl, inr,
}
use merutable.Bytes.Order.{eq_bytes_iff}

-- What a reader read from the files, with the generation that it took before
pub record ReadResult : Type 0 where
  pub key : Bytes
  pub entry : CacheEntry
  pub captured_gen : ℕ

-- A function changed at one key
abbrev pub updated : {A : Type 0} → (Bytes → A) → Bytes → A → Bytes → A
updated f k a j = if eq_bytes j k then a else f j

-- The cache, what a lookup past it returns for each key, the readers that are about to insert, and
-- how many writers of each key have changed the store and not yet the generation, or the generation
-- and not yet the cache.
pub record Scene (Map : Type 0) : Type 0 where
  pub cache : RowCache Map
  pub store : Bytes → CacheEntry
  pub readers : List ReadResult
  pub written : Bytes → ℕ
  pub bumped : Bytes → ℕ

pub updated-same : {A : Type 0} (f : Bytes → A) (k : Bytes) (a : A) → updated f k a k ≡ a
updated-same f k a = rw ((eq_bytes_iff k k).1 refl)

-- At each key a change is seen or not.
pub updated-cases :
    {A : Type 0} (f : Bytes → A) (k j : Bytes) (a : A)
    → ((j ≡ k) × (updated f k a j ≡ a)) ⊎ ((j ≢ k) × (updated f k a j ≡ f j))
updated-cases f k j a = elim (Bool-cases (eq_bytes j k)) [
  | inl t ↦ inl ((eq_bytes_iff j k).0 t, rw t)
  | inr u ↦ inr (λ e. no u ((eq_bytes_iff j k).1 e), rw u)
]
  where
    no : {b : Bool} → b ≡ false → b ≡ true → ⊥
    no p q = cc

pub updated-other :
    {A : Type 0} (f : Bytes → A) (k j : Bytes) (a : A) → j ≢ k → updated f k a j ≡ f j
updated-other f k j a n = elim (updated-cases f k j a) [
  | inl (e, v) ↦ absurd (n e)
  | inr (m, v) ↦ v
]

module _ (L : LruCache) where
  -- One step of one thread. A reader took its generation at some time before it reads.
  pub data Step : Scene L.Map → Scene L.Map → Type 0 where
    write :
        (s : Scene L.Map) (k : Bytes) (e : CacheEntry)
        → Step s (record s {
          store = updated s.store k e;
          written = updated s.written k (s.written k + 1);
        })
    bump :
        (s : Scene L.Map) (k : Bytes)
        → 0 < s.written k
        → s.cache.generation + 1 < 2 ^ 64
        → Step s (record s {
          cache = bump_generation L s.cache;
          written = updated s.written k (s.written k - 1);
          bumped = updated s.bumped k (s.bumped k + 1);
        })
    pop :
        (s : Scene L.Map) (k : Bytes)
        → 0 < s.bumped k
        → Step s
            (record s { cache = pop_key L s.cache k; bumped = updated s.bumped k (s.bumped k - 1) })
    read :
        (s : Scene L.Map) (k : Bytes) (captured_gen : ℕ)
        → captured_gen ≤ s.cache.generation
        → Step s (record s {
          readers = record { key = k; entry = s.store k; captured_gen = captured_gen } ∷ s.readers;
        })
    insert :
        (s : Scene L.Map) (r : ReadResult) (rs : List ReadResult)
        → s.readers ≡ r ∷ rs
        → Step s (record s {
          cache = insert_if_fresh L s.cache r.key r.entry r.captured_gen;
          readers = rs;
        })
    later :
        (s : Scene L.Map) (r : ReadResult) (rs : List ReadResult)
        → s.readers ≡ r ∷ rs
        → Step s (record s { readers = rs ++ r ∷ [] })
    clear_bump :
        (s : Scene L.Map)
        → s.cache.generation + 1 < 2 ^ 64
        → Step s (record s { cache = bump_generation L s.cache })
    clear : (s : Scene L.Map) → Step s (record s { cache = clear_entries L s.cache })

  -- A cached entry is that of the store, or a writer is about to remove it. A reader whose generation
  -- is still the current one has the entry of the store, or a writer is about to change the generation.
  pub record IsFresh (s : Scene L.Map) : Type 0 where
    pub cached :
        (k : Bytes) (e : CacheEntry)
        → L.peek s.cache.inner k ≡ some e
        → (e ≡ s.store k) ⊎ (0 < s.written k + s.bumped k)
    pub pending :
        All
          (λ r.
            (r.captured_gen ≤ s.cache.generation)
            × (r.captured_gen ≡ s.cache.generation
                → (r.entry ≡ s.store r.key) ⊎ (0 < s.written r.key)))
          s.readers
