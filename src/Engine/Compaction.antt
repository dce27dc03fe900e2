-- ===== src/Engine/Compaction.antt =====
-- engine/compaction/iterator.rs: the merge of sorted files, without the versions that no reader
-- needs.
pub mod Visible
use merutable.Bytes.{Bytes, eq_bytes}
use merutable.Types.Sequence.{SeqNum, OpType}
use merutable.Types.Value.{Row}
use merutable.Types.Key.{InternalKey, user_key_bytes, cmp}
use merutable.Prelude.{
  gt, Option, Bool, ℕ, List, false, true, none, ◌∷◌, ◌++◌, some, if◌then◌else◌, [], leb, ◌&&◌, ltb,
}

pub record CompactionEntry : Type 0 where
  pub ikey : InternalKey
  pub row : Row
  pub source_file_idx : ℕ
  pub row_position : ℕ

pub record FileEntries : Type 0 where
  pub file_idx : ℕ
  pub entries : List (InternalKey × (Row × ℕ))

-- The two loops of `new` that flatten the files
unfoldable pub flatten_entries : ℕ → List (InternalKey × (Row × ℕ)) → List CompactionEntry
flatten_entries file_idx [] = []
flatten_entries file_idx ((ikey, (row, row_pos)) ∷ entries) =
    record { ikey = ikey; row = row; source_file_idx = file_idx; row_position = row_pos }
    ∷ flatten_entries file_idx entries

unfoldable pub flatten : List FileEntries → List CompactionEntry
flatten [] = []
flatten (fe ∷ fes) = flatten_entries fe.file_idx fe.entries ++ flatten fes

-- `sort_by` of the standard library, which is stable
unfoldable pub insert_entry : CompactionEntry → List CompactionEntry → List CompactionEntry
insert_entry e [] = e ∷ []
insert_entry e (f ∷ fs) = elim (cmp e.ikey f.ikey) [ gt ↦ f ∷ insert_entry e fs | _ ↦ e ∷ f ∷ fs ]

unfoldable pub sort_entries : List CompactionEntry → List CompactionEntry
sort_entries [] = []
sort_entries (e ∷ es) = insert_entry e (sort_entries es)

-- `if let Some(ref last) = last_uk { if *last == uk … }`
abbrev pub is_older : Option Bytes → Bytes → Bool
is_older none uk = false
is_older (some last) uk = eq_bytes last uk

abbrev pub is_delete : OpType → Bool
is_delete OpType.delete = true
is_delete OpType.put = false

-- The loop of `new` that fills `deduped`
unfoldable pub dedup : Option Bytes → SeqNum → Bool → List CompactionEntry → List CompactionEntry
dedup last_uk oldest_snapshot_seq drop_tombstones [] = []
dedup last_uk oldest_snapshot_seq drop_tombstones (entry ∷ entries) =
    let uk = user_key_bytes entry.ikey in
    elim (is_older last_uk uk) [
      | true ↦
          (if leb oldest_snapshot_seq entry.ikey.seq
            then entry ∷ dedup last_uk oldest_snapshot_seq drop_tombstones entries
            else dedup last_uk oldest_snapshot_seq drop_tombstones entries)
      | false ↦
          (if drop_tombstones
              && (is_delete entry.ikey.op_type && ltb entry.ikey.seq oldest_snapshot_seq)
            then dedup (some uk) oldest_snapshot_seq drop_tombstones entries
            else entry ∷ dedup (some uk) oldest_snapshot_seq drop_tombstones entries)
    ]

-- `CompactionIterator::new`: the entries that its `next` goes through
unfoldable pub new : List FileEntries → SeqNum → Bool → List CompactionEntry
new file_entries oldest_snapshot_seq drop_tombstones =
    dedup none oldest_snapshot_seq drop_tombstones (sort_entries (flatten file_entries))
