-- ===== src/Engine/ReadPath.antt =====
-- engine/read_path.rs: the lookup of one key. Reading a key from a data file (the package parquet and
-- the deletion vector of the file) and the decoding of a stored row (serde) are parameters; the
-- version, the encoded key and what the memtables give for it are those that the lookup has in hand.
pub mod Vectors
pub mod EveryFile
pub mod Cached
mod Examples
use merutable.Bytes.{Bytes}
use merutable.Engine.Cache.{
  CacheEntry, LruCache, RowCache, insert_if_fresh, get, snapshot_generation,
}
use merutable.Engine.Compaction.{is_delete}
use merutable.Engine.Job.{is_nil, ltb_bytes}
use merutable.Iceberg.Version.{DataFileMeta, Version, files_at, find_file_for_key, max_level}
use merutable.Memtable.Skiplist.{EntryValue}
use merutable.Types.Key.{InternalKey}
use merutable.Types.Level.{Level}
use merutable.Types.Sequence.{SeqNum}
use merutable.Types.Value.{Row}
use merutable.Prelude.{
  ℕ, zero, suc, Bool, true, false, List, [], ◌∷◌, Option, none, some, ◌+◌, not, ◌&&◌, if◌then◌else◌,
  Result, ok, ◌>>=◌,
}

abbrev pub Hit : Type 0
Hit = InternalKey × Row

-- `range_contains`: an empty bound is no bound.
unfoldable pub range_contains : Bytes → Bytes → Bytes → Bool
range_contains key_min key_max probe =
    if not (is_nil key_min) && ltb_bytes probe key_min
    then false
    else if not (is_nil key_max) && ltb_bytes key_max probe
    then false
    else true

-- The row of a hit, unless it is a delete
abbrev pub live_row : Option Hit → Option Row
live_row none = none
live_row (some (ikey, row)) = if is_delete ikey.op_type then none else some row

module _ (file_get : DataFileMeta → Bytes → SeqNum → Result (Option Hit)) where
  -- The loop over the files of level 0
  unfoldable pub lookup_l0 : List DataFileMeta → Bytes → SeqNum → Result (Option Hit)
  lookup_l0 [] key read_seq = ok none
  lookup_l0 (f ∷ fs) key read_seq =
      let rest = lookup_l0 fs key read_seq in
      elim (range_contains f.meta.key_min f.meta.key_max key) [
        | false ↦ rest
        | true ↦ (do
          found ← file_get f key read_seq
          elim found [ some hit ↦ ok (some hit) | none ↦ rest ])
      ]

  -- The loop over the levels from `lvl` on, with the number of levels left
  unfoldable pub lookup_levels : Version → ℕ → Level → Bytes → SeqNum → Result (Option Hit)
  lookup_levels version zero lvl key read_seq = ok none
  lookup_levels version (suc n) lvl key read_seq =
      let rest = lookup_levels version n (lvl + 1) key read_seq in
      do
        covering ← find_file_for_key version lvl key
        elim covering [
          | none ↦ rest
          | some f ↦ (do
            found ← file_get f key read_seq
            elim found [ some hit ↦ ok (some hit) | none ↦ rest ])
        ]

  -- Stops 2 and 3
  unfoldable pub lookup_files : Version → Bytes → SeqNum → Result (Option Hit)
  lookup_files version key read_seq = do
    found ← lookup_l0 (files_at version 0) key read_seq
    elim found [
      | some hit ↦ ok (some hit)
      | none ↦ lookup_levels version (max_level version) 1 key read_seq
    ]

  module _ (decode_row : Bytes → Result Row) where
    -- Stop 1: the memtable's entry
    unfoldable pub memtable_row : EntryValue → Result (Option Row)
    memtable_row entry =
        if is_delete entry.op_type then ok none else do row ← decode_row entry.value; ok (some row)

    -- `point_lookup_at_seq`
    unfoldable pub point_lookup_at_seq :
        Option EntryValue → Version → Bytes → SeqNum → Result (Option Row)
    point_lookup_at_seq in_memtable version key read_seq = elim in_memtable [
      | some entry ↦ memtable_row entry
      | none ↦ (do found ← lookup_files version key read_seq; ok (live_row found))
    ]

    module _ (L : LruCache) where
      -- The insertion into the cache after a hit in a file
      unfoldable pub cache_hit : RowCache L.Map → Bytes → ℕ → Option Hit → RowCache L.Map
      cache_hit cache key cache_gen none = cache
      cache_hit cache key cache_gen (some (ikey, row)) =
          insert_if_fresh L cache key (record { op_type = ikey.op_type; row = row }) cache_gen

      -- `point_lookup` past the memtable, with what the cache gives
      unfoldable pub after_cache :
          Version
          → Bytes
          → SeqNum
          → Option CacheEntry × RowCache L.Map
          → Result (Option Row × RowCache L.Map)
      after_cache version key read_seq (some entry, cache) =
          ok (if is_delete entry.op_type then none else some entry.row, cache)
      after_cache version key read_seq (none, cache) =
          let cache_gen = snapshot_generation L cache in
          do
            found ← lookup_files version key read_seq
            ok (live_row found, cache_hit cache key cache_gen found)

      -- `point_lookup` with a row cache that no other thread uses meanwhile
      unfoldable pub point_lookup :
          Option EntryValue
          → RowCache L.Map
          → Version
          → Bytes
          → SeqNum
          → Result (Option Row × RowCache L.Map)
      point_lookup in_memtable cache version key read_seq = elim in_memtable [
        | some entry ↦ (do row ← memtable_row entry; ok (row, cache))
        | none ↦ after_cache version key read_seq (get L cache key)
      ]
