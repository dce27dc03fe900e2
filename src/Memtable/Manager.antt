-- ===== src/Memtable/Manager.antt =====
-- memtable/manager.rs: the active memtable and the queue of sealed ones. What runs under the lock is
-- a function of the state; notifications and metrics are left out.
pub mod Refinement
pub mod Runs
use merutable.Memtable.SkipMap.{SkipMap}
use merutable.Memtable.Skiplist.{EntryValue}
use merutable.Memtable.Table
use merutable.Memtable.Table.{Memtable, MemEntry}
use merutable.Types.Sequence.{SeqNum}
use merutable.Wal.Batch.{WriteBatch}
use merutable.Prelude.{◌>>=◌, ok}
use merutable.Bytes.{Bytes}
use merutable.Prelude.{
  List, Bool, ℕ, ◌++◌, Result, Option, get_elem?, [], reverse, leb, none, ◌∷◌, some, length,
  if◌then◌else◌, map, ◌==◌,
}

-- `MemtableSet` with the settings: `immutable` has the oldest memtable at its front.
pub record MemtableManager (Map : Type 0) : Type 0 where
  pub active : Memtable Map
  pub immutable : List (Memtable Map)
  pub flush_threshold : ℕ
  pub max_immutable : ℕ

-- `VecDeque::retain(|m| m.first_seq != first_seq)`
unfoldable pub retain_others : {Map : Type 0} → SeqNum → List (Memtable Map) → List (Memtable Map)
retain_others first_seq [] = []
retain_others first_seq (m ∷ ms) =
    let rest = retain_others first_seq ms in if m.first_seq == first_seq then rest else m ∷ rest

module _ (S : SkipMap EntryValue) where
  -- `MemtableManager::new`
  unfoldable pub new : SeqNum → ℕ → ℕ → MemtableManager S.Map
  new first_seq flush_threshold max_immutable = record {
    active = Table.new S first_seq flush_threshold;
    immutable = [];
    flush_threshold = flush_threshold;
    max_immutable = max_immutable;
  }

  -- `MemtableManager::apply_batch`
  unfoldable pub apply_batch :
      MemtableManager S.Map → WriteBatch → Result (Bool × MemtableManager S.Map)
  apply_batch mgr b = do
    (flush, active') ← Table.apply_batch S mgr.active b
    ok (flush, record mgr { active = active' })

  -- `MemtableManager::rotate`
  unfoldable pub rotate : MemtableManager S.Map → SeqNum → Memtable S.Map × MemtableManager S.Map
  rotate mgr new_first_seq =
      let sealed = Table.seal S mgr.active in
      (
        sealed,
        record mgr {
          active = Table.new S new_first_seq mgr.flush_threshold;
          immutable = mgr.immutable ++ sealed ∷ [];
        },
      )

  -- `MemtableManager::drop_flushed`
  unfoldable pub drop_flushed : MemtableManager S.Map → SeqNum → MemtableManager S.Map
  drop_flushed mgr first_seq = record mgr { immutable = retain_others first_seq mgr.immutable }

  -- `MemtableManager::oldest_immutable`
  unfoldable pub oldest_immutable : MemtableManager S.Map → Option (Memtable S.Map)
  oldest_immutable mgr = get_elem? mgr.immutable 0

  -- `MemtableManager::should_stall`
  unfoldable pub should_stall : MemtableManager S.Map → Bool
  should_stall mgr = leb mgr.max_immutable (length mgr.immutable)

  -- The loop of `get` over the queue, newest first
  unfoldable pub get_queue : List (Memtable S.Map) → Bytes → SeqNum → Option EntryValue
  get_queue [] user_key_bytes read_seq = none
  get_queue (m ∷ ms) user_key_bytes read_seq =
      let rest = get_queue ms user_key_bytes read_seq in
      elim (Table.get S m user_key_bytes read_seq) [ some e ↦ some e | none ↦ rest ]

  -- `MemtableManager::get`
  unfoldable pub get : MemtableManager S.Map → Bytes → SeqNum → Option EntryValue
  get mgr user_key_bytes read_seq = elim (Table.get S mgr.active user_key_bytes read_seq) [
    | some e ↦ some e
    | none ↦ get_queue (reverse mgr.immutable) user_key_bytes read_seq
  ]

  -- `MemtableManager::snapshot_entries`
  unfoldable pub snapshot_entries : MemtableManager S.Map → SeqNum → List (List MemEntry)
  snapshot_entries mgr read_seq =
      Table.iter S mgr.active read_seq ∷ map (λ m. Table.iter S m read_seq) (reverse mgr.immutable)

  -- `MemtableManager::snapshot_all_versions`: `extend` over the queue
  unfoldable pub all_versions_queue : List (Memtable S.Map) → SeqNum → List MemEntry
  all_versions_queue [] read_seq = []
  all_versions_queue (m ∷ ms) read_seq =
      Table.iter_all_versions S m read_seq ++ all_versions_queue ms read_seq

  unfoldable pub snapshot_all_versions : MemtableManager S.Map → SeqNum → List MemEntry
  snapshot_all_versions mgr read_seq =
      Table.iter_all_versions S mgr.active read_seq
      ++ all_versions_queue (reverse mgr.immutable) read_seq
