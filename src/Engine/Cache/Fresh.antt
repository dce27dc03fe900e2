-- ===== src/Engine/Cache/Fresh.antt =====
-- What a hit of the row cache (engine/cache.rs) returns, with other threads at work.
pub mod Steps
pub mod Kept
use merutable.Engine.Cache.Fresh.Steps.{Scene, Step, IsFresh}
use merutable.Engine.Cache.Fresh.Kept.{Step-IsFresh}
use merutable.Engine.Cache.{
  CacheEntry, LruCache, RowCache, insert_if_fresh, bump_generation, pop_key, clear_entries, get,
}
use merutable.Bytes.{Bytes, eq_bytes}
use merutable.Prelude.{
  if◌then◌else◌, ◌≡◌, ℕ, ◌+◌, List, ◌<◌, ◌⊎◌, some, ◌^◌, refl, ◌≢◌, All, ◌-◌, Bool, ◌≤◌, ◌∷◌, false,
  true, ◌++◌, Bool-cases, [], inl, inr, ap, arith, All-map, sym, ◌∙◌, subst, ◌==◌, All-append,
  Option, none,
}
use merutable.Bytes.Order.{eq_bytes_iff}

module _ (L : LruCache) where
  -- Steps of any threads from an empty cache
  pub data Reached : Scene L.Map → Type 0 where
    empty :
        (store : Bytes → CacheEntry) (capacity : ℕ)
        → Reached (record {
          cache = record { inner = L.empty capacity; generation = 0; hits = 0; misses = 0 };
          store = store;
          readers = [];
          written = λ k. 0;
          bumped = λ k. 0;
        })
    one_more : (s t : Scene L.Map) → Reached s → Step L s t → Reached t

  Reached-IsFresh : (s : Scene L.Map) → Reached s → IsFresh L s
  Reached-IsFresh a (empty store capacity) = record {
    cached = λ k e p. absurd (nothing_there capacity k e p);
    pending = tt;
  }
    where
      nothing_there :
          (capacity : ℕ) (k : Bytes) (e : CacheEntry) → L.peek (L.empty capacity) k ≡ some e → ⊥
      nothing_there capacity k e p = let none_left = L.peek-empty capacity k in cc
  Reached-IsFresh a (one_more r t h st) = Step-IsFresh L r t st (Reached-IsFresh r h)

  -- Readers take the generation, read the store as it is then or later, and insert with `insert_if_fresh`; writers change the store,
  -- then the generation, then remove the entry, as `invalidate` does; others clear the cache. However
  -- these steps interleave, a hit for a key for which no writer is between its write and the removal
  -- is the entry that the store has. The generation does not reach 2^64.
  pub get-current :
      (s : Scene L.Map) (k : Bytes) (e : CacheEntry) (c : RowCache L.Map)
      → Reached s
      → s.written k ≡ 0
      → s.bumped k ≡ 0
      → get L s.cache k ≡ (some e, c)
      → e ≡ s.store k
  unfolding get
  get-current s k e c r w b h =
      elim ((Reached-IsFresh s r).cached k e (hit (L.peek s.cache.inner k) refl)) [
        | inl y ↦ y
        | inr y ↦ absurd (omega (arith, y, w, b))
      ]
    where
      hit :
          (found : Option CacheEntry)
          → L.peek s.cache.inner k ≡ found
          → L.peek s.cache.inner k ≡ some e
      hit none q = let h' = rw (q, get) at h in cc
      hit (some x) q = let h' = rw (q, get) at h in cc
