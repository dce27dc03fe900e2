-- ===== src/Memtable/Examples.antt =====
-- Runs of the memtables on concrete writes, and the theorems about them at these.
use merutable.Memtable.SkipMap.{sorted_list}
use merutable.Memtable.Manager
use merutable.Memtable.Table
use merutable.Memtable.Skiplist
use merutable.Memtable.Manager.{MemtableManager}
use merutable.Memtable.Manager.Runs.{started, applied, rotated, get-Run}
use merutable.Memtable.Skiplist.{EntryValue, MemtableSkipList, new, insert, get}
use merutable.Memtable.Skiplist.Lookup.{Version, Apart, lookup, entries_of}
use merutable.Memtable.Skiplist.Newest.{get-lookup}
use merutable.Memtable.SkipMap.{SkipMap}
use merutable.Memtable.Table.History.{history_of}
use merutable.Memtable.Manager.Refinement.{past}
use merutable.Types.Sequence.{OpType}
use merutable.Wal.Batch.{WriteBatch}
use merutable.Bytes.{Bytes}
use merutable.Prelude.{◌≡◌, some, List, [], ◌∷◌, arith, refl, false, ok}

abbrev plain : SkipMap EntryValue
plain = sorted_list

abbrev row_key : Bytes
row_key = 5 ∷ 6 ∷ []

abbrev first_write : Version
first_write = record {
  user_key = row_key;
  seq = 1;
  entry = record { op_type = OpType.put; value = 9 ∷ [] };
}

abbrev second_write : Version
second_write = record {
  user_key = row_key;
  seq = 2;
  entry = record { op_type = OpType.delete; value = [] };
}

abbrev writes : List Version
writes = second_write ∷ first_write ∷ []

abbrev filled : MemtableSkipList (List (Bytes × EntryValue))
filled = record { map = entries_of writes; entry_count = 2; size_bytes = 149 }

same_key-Apart : (u : Bytes) → Apart u u
same_key-Apart u x y e = refl

get-lookup_example : get plain filled row_key 1 ≡ lookup row_key 1 writes
get-lookup_example =
    get-lookup plain filled writes row_key 1 refl
      (omega arith, (omega arith, tt), (omega arith, tt, tt))
      (same_key-Apart row_key, (same_key-Apart row_key, tt))

abbrev one_put : WriteBatch
one_put = record {
  sequence = 1;
  records = record { op_type = OpType.put; user_key = row_key; value = some (9 ∷ []) } ∷ [];
}

abbrev first_table : MemtableManager (List (Bytes × EntryValue))
first_table = Manager.new plain 0 4096 4

abbrev after_put : MemtableManager (List (Bytes × EntryValue))
after_put = record first_table {
  active = Table.apply_records plain first_table.active 1 one_put.records;
}

put_applied : Manager.apply_batch plain first_table one_put ≡ ok (false, after_put)
unfolding Manager.apply_batch Manager.new Table.apply_batch Table.new Table.apply_records
    Skiplist.insert Skiplist.new
put_applied = refl

get-Run_example :
    Manager.get plain (Manager.rotate plain after_put 3).1 row_key 1
    ≡ lookup row_key 1 (past (history_of 1 one_put.records [] ∷ []))
get-Run_example =
    get-Run plain (Manager.rotate plain after_put 3).1 [] (history_of 1 one_put.records [] ∷ [])
      row_key 1
      (rotated after_put (history_of 1 one_put.records []) [] 3 (
        applied first_table after_put [] [] one_put false (started 0 4096 4) (tt, omega arith)
          put_applied))
      (unfold history_of in (same_key-Apart row_key, tt))
