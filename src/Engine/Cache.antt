-- ===== src/Engine/Cache.antt =====
-- engine/cache.rs: the row cache. The map of the package lru is an interface; a call under the mutex
-- is one step, and the atomic increment before it another. Metrics are left out.
pub mod Fresh
use merutable.Bytes.{Bytes}
use merutable.Types.Sequence.{OpType}
use merutable.Types.Value.{Row}
use merutable.Prelude.{
  ℕ, ◌+◌, Option, ◌%◌, if◌then◌else◌, some, Result, ◌≡◌, ◌==◌, not, none, ◌^◌, panic, ◌⊎◌, ok, ◌≢◌,
}

pub record CacheEntry : Type 0 where
  pub op_type : OpType
  pub row : Row

-- `LruCache`: `put` may evict entries of other keys, and `get` changes only their order.
pub record LruCache : Type 1 where
  pub Map : Type 0
  pub peek : Map → Bytes → Option CacheEntry
  pub empty : ℕ → Map
  pub promote : Map → Bytes → Map
  pub put : Map → Bytes → CacheEntry → Map
  pub pop : Map → Bytes → Map
  pub clear : Map → Map
  pub peek-empty : (capacity : ℕ) (k : Bytes) → peek (empty capacity) k ≡ none
  pub peek-promote : (m : Map) (k j : Bytes) → peek (promote m k) j ≡ peek m j
  pub peek-put :
      (m : Map) (k j : Bytes) (v e : CacheEntry)
      → peek (put m k v) j ≡ some e
      → ((j ≡ k) × (e ≡ v)) ⊎ (peek m j ≡ some e)
  pub peek-pop_same : (m : Map) (k : Bytes) → peek (pop m k) k ≡ none
  pub peek-pop_other : (m : Map) (k j : Bytes) → j ≢ k → peek (pop m k) j ≡ peek m j
  pub peek-clear : (m : Map) (k : Bytes) → peek (clear m) k ≡ none

-- Counters are u64.
pub record RowCache (Map : Type 0) : Type 0 where
  pub inner : Map
  pub generation : ℕ
  pub hits : ℕ
  pub misses : ℕ

module _ (L : LruCache) where
  -- `RowCache::new`: it panics on a capacity of 0
  unfoldable pub new : ℕ → Result (RowCache L.Map)
  new capacity =
      if capacity == 0
      then panic
      else ok (record { inner = L.empty capacity; generation = 0; hits = 0; misses = 0 })

  -- `RowCache::get`
  unfoldable pub get : RowCache L.Map → Bytes → Option CacheEntry × RowCache L.Map
  get c user_key =
      let c' : RowCache L.Map = record c { inner = L.promote c.inner user_key } in
      elim (L.peek c.inner user_key) [
        | some entry ↦ (some entry, record c' { hits = (c.hits + 1) % 2 ^ 64 })
        | none ↦ (none, record c' { misses = (c.misses + 1) % 2 ^ 64 })
      ]

  -- `RowCache::snapshot_generation`
  abbrev pub snapshot_generation : RowCache L.Map → ℕ
  snapshot_generation c = c.generation

  -- `RowCache::insert_if_fresh`
  unfoldable pub insert_if_fresh : RowCache L.Map → Bytes → CacheEntry → ℕ → RowCache L.Map
  insert_if_fresh c user_key entry captured_gen =
      if not (c.generation == captured_gen)
      then c
      else record c { inner = L.put c.inner user_key entry }

  -- The increment of `invalidate` and `clear`
  unfoldable pub bump_generation : RowCache L.Map → RowCache L.Map
  bump_generation c = record c { generation = (c.generation + 1) % 2 ^ 64 }

  -- The rest of `invalidate`, under the mutex
  unfoldable pub pop_key : RowCache L.Map → Bytes → RowCache L.Map
  pop_key c user_key = record c { inner = L.pop c.inner user_key }

  -- The rest of `clear`, under the mutex
  unfoldable pub clear_entries : RowCache L.Map → RowCache L.Map
  clear_entries c = record c { inner = L.clear c.inner }

  -- `RowCache::invalidate`, alone
  unfoldable pub invalidate : RowCache L.Map → Bytes → RowCache L.Map
  invalidate c user_key = pop_key (bump_generation c) user_key

  -- `RowCache::clear`, alone
  unfoldable pub clear : RowCache L.Map → RowCache L.Map
  clear c = clear_entries (bump_generation c)
