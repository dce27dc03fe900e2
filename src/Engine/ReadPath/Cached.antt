-- ===== src/Engine/ReadPath/Cached.antt =====
-- The lookup with the row cache (engine/read_path.rs) against the one without.
use merutable.Bytes.{Bytes}
use merutable.Engine.Cache.{CacheEntry, LruCache, RowCache, insert_if_fresh, get}
use merutable.Engine.Compaction.{is_delete}
use merutable.Engine.ReadPath.{
  Hit, live_row, lookup_files, memtable_row, point_lookup_at_seq, after_cache, cache_hit,
  point_lookup,
}
use merutable.Engine.ReadPath.EveryFile.{FileGet}
use merutable.Iceberg.Version.{Version}
use merutable.Memtable.Skiplist.{EntryValue}
use merutable.Types.Key.{InternalKey}
use merutable.Types.Sequence.{SeqNum}
use merutable.Types.Value.{Row}
use merutable.Prelude.{
  ℕ, Option, none, some, Result, ok, err, panic, ◌>>=◌, ◌≡◌, ◌∙◌, inl, inr, refl, ap, sym, ◌==◌,
  if◌then◌else◌, Bool-cases, Option-cases, ◌+◌, subst, ◌%◌, ◌^◌,
}

module _ (file_get : FileGet) (decode_row : Bytes → Result Row) (L : LruCache) (v : Version)
    (read_seq : SeqNum) where
  -- Every cached entry is what the files give for its key.
  abbrev pub Agrees : L.Map → Type 0
  Agrees m =
      (k : Bytes) (e : CacheEntry)
      → L.peek m k ≡ some e
      → (ikey : InternalKey) × (lookup_files file_get v k read_seq ≡ ok (some (ikey, e.row)))
        × (ikey.op_type ≡ e.op_type)

  promote-Agrees : (m : L.Map) (k : Bytes) → Agrees m → Agrees (L.promote m k)
  promote-Agrees m k h j e p = h j e (sym (L.peek-promote m k j) ∙ p)

  put-Agrees :
      (m : L.Map) (k : Bytes) (ikey : InternalKey) (row : Row)
      → lookup_files file_get v k read_seq ≡ ok (some (ikey, row))
      → Agrees m
      → Agrees (L.put m k (record { op_type = ikey.op_type; row = row }))
  put-Agrees m k ikey row f h j e p =
      elim (L.peek-put m k j (record { op_type = ikey.op_type; row = row }) e p) [
        | inr q ↦ h j e q
        | inl (same, entry) ↦ (
          ikey,
          ap (λ x. lookup_files file_get v x read_seq) same
              ∙ f
              ∙ ap (λ (r : Row). ok (some (ikey, r))) (sym (ap (λ (c : CacheEntry). c.row) entry)),
          sym (ap (λ (c : CacheEntry). c.op_type) entry),
        )
      ]

  -- The result of a lookup, without the cache
  abbrev result_of : Result (Option Row × RowCache L.Map) → Result (Option Row)
  result_of r = r >>= λ x. ok x.0

  abbrev with_cache : RowCache L.Map → Option Row → Result (Option Row × RowCache L.Map)
  with_cache cache row = ok (row, cache)

  memtable-part :
      (entry : EntryValue) (cache : RowCache L.Map)
      → result_of (memtable_row file_get decode_row entry >>= λ row. ok (row, cache))
        ≡ memtable_row file_get decode_row entry
  memtable-part entry cache = go (memtable_row file_get decode_row entry)
    where
      go : (r : Result (Option Row)) → result_of (r >>= λ row. ok (row, cache)) ≡ r
      go (ok row) = refl
      go (err reason) = refl
      go panic = refl

  -- The cache after a miss, and after a hit
  abbrev after_miss : RowCache L.Map → Bytes → RowCache L.Map
  after_miss c k = record c { inner = L.promote c.inner k; misses = (c.misses + 1) % 2 ^ 64 }

  abbrev after_hit : RowCache L.Map → Bytes → RowCache L.Map
  after_hit c k = record c { inner = L.promote c.inner k; hits = (c.hits + 1) % 2 ^ 64 }

  get-miss :
      (c : RowCache L.Map) (k : Bytes)
      → L.peek c.inner k ≡ none
      → get L c k ≡ (none, after_miss c k)
  unfolding get
  get-miss c k q = rw (q, get) refl

  get-hit :
      (c : RowCache L.Map) (k : Bytes) (e : CacheEntry)
      → L.peek c.inner k ≡ some e
      → get L c k ≡ (some e, after_hit c k)
  unfolding get
  get-hit c k e q = rw (q, get) refl

  abbrev served : RowCache L.Map → Bytes → Option Hit → Option Row × RowCache L.Map
  served c k found =
      (live_row found, cache_hit file_get decode_row L (after_miss c k) k c.generation found)

  point_lookup-miss :
      (c : RowCache L.Map) (k : Bytes)
      → L.peek c.inner k ≡ none
      → point_lookup file_get decode_row L none c v k read_seq
        ≡ (lookup_files file_get v k read_seq >>= λ found. ok (served c k found))
  unfolding point_lookup after_cache
  point_lookup-miss c k q = ap (after_cache file_get decode_row L v k read_seq) (get-miss c k q)

  point_lookup-hit :
      (c : RowCache L.Map) (k : Bytes) (e : CacheEntry)
      → L.peek c.inner k ≡ some e
      → point_lookup file_get decode_row L none c v k read_seq
        ≡ ok (if is_delete e.op_type then none else some e.row, after_hit c k)
  unfolding point_lookup after_cache
  point_lookup-hit c k e q = ap (after_cache file_get decode_row L v k read_seq) (get-hit c k e q)

  insert-Agrees :
      (c : RowCache L.Map) (k : Bytes) (gen : ℕ) (found : Option Hit)
      → lookup_files file_get v k read_seq ≡ ok found
      → Agrees c.inner
      → Agrees (cache_hit file_get decode_row L c k gen found).inner
  unfolding cache_hit insert_if_fresh
  insert-Agrees c k gen none f h = h
  insert-Agrees c k gen (some (ikey, row)) f h = elim (Bool-cases (c.generation == gen)) [
    | inl t ↦ rw t (put-Agrees c.inner k ikey row f h)
    | inr u ↦ rw u h
  ]

  -- The cache does not change what a lookup returns, errors included, where every entry in it is what
  -- the files give for its key; and every entry of the cache that a lookup leaves is so, too.
  pub point_lookup-at_seq :
      (in_memtable : Option EntryValue) (cache : RowCache L.Map) (key : Bytes)
      → Agrees cache.inner
      → (result_of (point_lookup file_get decode_row L in_memtable cache v key read_seq)
          ≡ point_lookup_at_seq file_get decode_row in_memtable v key read_seq)
        × ((row : Option Row) (after : RowCache L.Map)
            → point_lookup file_get decode_row L in_memtable cache v key read_seq ≡ ok (row, after)
            → Agrees after.inner)
  unfolding point_lookup_at_seq
  point_lookup-at_seq (some entry) cache key h =
      unfold point_lookup in
      (
        memtable-part entry cache,
        λ row after e. unchanged (memtable_row file_get decode_row entry) row after e,
      )
    where
      unchanged :
          (r : Result (Option Row)) (row : Option Row) (after : RowCache L.Map)
          → (r >>= with_cache cache) ≡ ok (row, after)
          → Agrees after.inner
      unchanged (ok x) row after e =
          let same : cache ≡ after = cc in subst (λ c. Agrees c.inner) same h
      unchanged (err reason) row after e = cc
      unchanged panic row after e = cc
  point_lookup-at_seq none cache key h = elim (Option-cases (L.peek cache.inner key)) [
    | inl q ↦ rw (point_lookup-miss cache key q) (
      missed (lookup_files file_get v key read_seq),
      λ row after e. kept (lookup_files file_get v key read_seq) refl row after e,
    )
    | inr (e, q) ↦
        let (ikey, f, op) = h key e q in
        rw (point_lookup-hit cache key e q) (
          rw (f, op) refl,
          λ row after z.
              let same : after_hit cache key ≡ after = cc in
              subst (λ c. Agrees c.inner) same (promote-Agrees cache.inner key h),
        )
  ]
    where
      missed :
          (r : Result (Option Hit))
          → result_of (r >>= λ found. ok (served cache key found))
            ≡ (r >>= λ found. ok (live_row found))
      missed (ok found) = refl
      missed (err reason) = refl
      missed panic = refl

      kept :
          (r : Result (Option Hit))
          → lookup_files file_get v key read_seq ≡ r
          → (row : Option Row) (after : RowCache L.Map)
          → (r >>= λ found. ok (served cache key found)) ≡ ok (row, after)
          → Agrees after.inner
      kept (ok found) f row after e =
          let same : cache_hit file_get decode_row L (after_miss cache key) key cache.generation
                found
              ≡ after =
            cc in
          subst (λ c. Agrees c.inner) same
            (insert-Agrees (after_miss cache key) key cache.generation found f
              (promote-Agrees cache.inner key h))
      kept (err reason) f row after e = cc
      kept panic f row after e = cc
