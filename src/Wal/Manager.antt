-- ===== src/Wal/Manager.antt =====
-- wal/manager.rs: the log files of a directory. A file goes by the number that `parse_log_number`
-- reads from its name; `read_dir` lists the directory. Creating, appending and syncing take effect;
-- whether the removal of a file fails is an argument.
pub mod Content
pub mod Listing
pub mod Logs
pub mod Recovered
pub mod Runs
pub mod Recovery
use merutable.Prelude.{
  ℕ, ◌+◌, ◌%◌, ◌^◌, Bool, true, false, not, List, [], ◌∷◌, ◌++◌, length, ltb, leb, ◌==◌,
  if◌then◌else◌, Result, ok, err, panic, ◌>>=◌,
}
use merutable.Bytes.{Bytes}
use merutable.Types.Sequence.{SeqNum}
use merutable.Wal.Batch
use merutable.Wal.Batch.{WriteBatch, last_seq}
use merutable.Wal.Log.{WalWriter, new_writer, new_reader, add_record, read_records}

abbrev pub Directory : Type 0
Directory = List (ℕ × Bytes)

pub record ClosedLog : Type 0 where
  pub log_number : ℕ
  pub max_seq : SeqNum

pub record WalManager : Type 0 where
  pub dir : Directory
  pub current : WalWriter
  pub log_number : ℕ
  pub next_log : ℕ
  pub current_log_max_seq : SeqNum
  pub closed_logs : List ClosedLog
  pub flushed_seq : SeqNum

-- `std::fs::remove_file`
unfoldable pub remove_file : Directory → ℕ → Directory
remove_file [] n = []
remove_file ((m, content) ∷ dir) n =
    if m == n then remove_file dir n else (m, content) ∷ remove_file dir n

-- `FileSink::create`: an empty file if there is none of that number; one that is there keeps its
-- content, since the sink appends.
unfoldable pub create_file : Directory → ℕ → Directory
create_file [] n = (n, []) ∷ []
create_file ((m, content) ∷ dir) n =
    (m, content) ∷ (let rest = create_file dir n in if m == n then dir else rest)

-- The sink of the current log
unfoldable pub append_file : Directory → ℕ → Bytes → Directory
append_file [] n out = []
append_file ((m, content) ∷ dir) n out =
    (m, if m == n then content ++ out else content) ∷ append_file dir n out

-- `WalManager::open`
unfoldable pub open_dir : Directory → ℕ → WalManager
open_dir dir initial_log_number = record {
  dir = create_file dir initial_log_number;
  current = new_writer initial_log_number false;
  log_number = initial_log_number;
  next_log = (initial_log_number + 1) % 2 ^ 64;
  current_log_max_seq = 0;
  closed_logs = [];
  flushed_seq = 0;
}

-- The loops that raise a counter: they end by their test or by their exchange.
abbrev pub raised : SeqNum → SeqNum → SeqNum
raised cur seq = if ltb cur seq then seq else cur

module _ (crc : Bytes → ℕ) where
  -- `WalManager::append`
  unfoldable pub append : WalManager → WriteBatch → WalManager
  append mgr batch =
      let (out, writer) = add_record crc mgr.current (Batch.encode batch) in
      record mgr {
        dir = append_file mgr.dir mgr.log_number out;
        current = writer;
        current_log_max_seq = raised mgr.current_log_max_seq (last_seq batch);
      }

-- `WalManager::rotate`: the log that it closed, and the manager then
unfoldable pub rotate : WalManager → ℕ × WalManager
rotate mgr = (
  mgr.log_number,
  record mgr {
    dir = create_file mgr.dir mgr.next_log;
    current = new_writer mgr.next_log false;
    log_number = mgr.next_log;
    next_log = (mgr.next_log + 1) % 2 ^ 64;
    current_log_max_seq = 0;
    closed_logs =
        mgr.closed_logs
        ++ record { log_number = mgr.log_number; max_seq = mgr.current_log_max_seq } ∷ [];
  },
)

-- The two halves of `closed.drain(..).partition(…)`
unfoldable pub to_delete : SeqNum → List ClosedLog → List ClosedLog
to_delete seq [] = []
to_delete seq (c ∷ cs) = if leb c.max_seq seq then c ∷ to_delete seq cs else to_delete seq cs

unfoldable pub keep : SeqNum → List ClosedLog → List ClosedLog
keep seq [] = []
keep seq (c ∷ cs) = if leb c.max_seq seq then keep seq cs else c ∷ keep seq cs

-- The loop over the logs to delete; `fails` says for which the removal is refused.
unfoldable pub delete_logs : (ℕ → Bool) → List ClosedLog → WalManager → WalManager
delete_logs fails [] mgr = mgr
delete_logs fails (c ∷ cs) mgr = delete_logs fails cs (
    if fails c.log_number
    then record mgr { closed_logs = mgr.closed_logs ++ c ∷ [] }
    else record mgr { dir = remove_file mgr.dir c.log_number })

-- `WalManager::mark_flushed_seq`
unfoldable pub mark_flushed_seq : (ℕ → Bool) → WalManager → SeqNum → WalManager
mark_flushed_seq fails mgr seq = delete_logs fails (to_delete seq mgr.closed_logs) (record mgr {
  flushed_seq = raised mgr.flushed_seq seq;
  closed_logs = keep seq mgr.closed_logs;
})

-- `WalManager::register_closed_log`
unfoldable pub register_closed_log : WalManager → ℕ → SeqNum → WalManager
register_closed_log mgr n seq = record mgr {
  closed_logs = mgr.closed_logs ++ record { log_number = n; max_seq = seq } ∷ [];
}

-- `log_files.sort_by_key(|(num, _)| *num)`, a stable sort
unfoldable pub insert_log : ℕ × Bytes → Directory → Directory
insert_log file [] = file ∷ []
insert_log file (other ∷ dir) =
    if leb file.0 other.0 then file ∷ other ∷ dir else other ∷ insert_log file dir

unfoldable pub sort_logs : Directory → Directory
sort_logs [] = []
sort_logs (file ∷ dir) = insert_log file (sort_logs dir)

-- The loop over the records of a file: an error of the reader or of `decode` ends it.
unfoldable pub recover_records :
    List (Result Bytes) → List WriteBatch → SeqNum → Result (List WriteBatch × SeqNum)
recover_records [] batches max_seq = ok (batches, max_seq)
recover_records (panic ∷ items) batches max_seq = panic
recover_records (err reason ∷ items) batches max_seq = ok (batches, max_seq)
recover_records (ok payload ∷ items) batches max_seq = elim (Batch.decode payload) [
  | ok batch ↦ recover_records items (batches ++ batch ∷ []) (raised max_seq (last_seq batch))
  | err reason ↦ ok (batches, max_seq)
  | panic ↦ panic
]

module _ (crc : Bytes → ℕ) where
  -- The loop over the files. `records` is called once for each record and once more, and a record
  -- takes a byte at least.
  unfoldable pub recover_logs :
      Directory → List WriteBatch → SeqNum → ℕ → Result (List WriteBatch × SeqNum × ℕ)
  recover_logs [] batches max_seq max_log_number = ok (batches, max_seq, max_log_number)
  recover_logs ((log_num, source) ∷ files) batches max_seq max_log_number = do
    (batches, max_seq) ←
        recover_records (read_records crc (length source + 1) (new_reader source false 0)) batches
          max_seq
    recover_logs files batches max_seq (raised max_log_number log_num)

  -- `WalManager::recover_from_dir`
  unfoldable pub recover_from_dir : Directory → Result (List WriteBatch × SeqNum × ℕ)
  recover_from_dir dir = recover_logs (sort_logs dir) [] 0 0

-- `WalManager::gc_logs_before`
unfoldable pub gc_logs_before : Directory → ℕ → Directory
gc_logs_before [] before_log = []
gc_logs_before ((n, content) ∷ dir) before_log =
    if ltb n before_log
    then gc_logs_before dir before_log
    else (n, content) ∷ gc_logs_before dir before_log
