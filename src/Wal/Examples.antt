-- ===== src/Wal/Examples.antt =====
-- Runs of the log and of the batches (wal/) on concrete input, and the theorems about them at it.
use merutable.Prelude.{
  ℕ, ◌+◌, ◌*◌, ◌%◌, ◌^◌, ◌<◌, ◌≡◌, ◌++◌, [], ◌∷◌, some, none, ok, map, true, arith, List, Bool,
  false,
}
use merutable.Bytes.{Bytes}
use merutable.Wal.Manager.Listing.{same}
use merutable.Wal.Manager.Runs.{Run, flushed, appended, rotated, opened}
use merutable.Types.Sequence.{OpType, SeqNum}
use merutable.Wal.Log.{new_writer, add_records, new_reader, read_records, next_record, add_record}
use merutable.Wal.Log.Physical.{reader_at}
use merutable.Wal.Log.Recovery.{next_record-add_record, recovery}
use merutable.Wal.Batch.{WriteBatch, encode, decode}
use merutable.Wal.Batch.RoundTrip.{normalized, decode-encode_batch}
use merutable.Wal.Manager.{
  WalManager, open_dir, create_file, append, rotate, remove_file, mark_flushed_seq,
  recover_from_dir,
}
use merutable.Wal.Manager.Recovered.{Log, IsWritable, all_batches, read_back, greatest_of}
use merutable.Wal.Manager.Logs.{Survives}
use merutable.Wal.Manager.Recovery.{recover_from_dir-Run}

-- A checksum into u32
abbrev sum_bytes : Bytes → ℕ
sum_bytes [] = 0
sum_bytes (b ∷ bs) = (b + 31 * sum_bytes bs) % 2 ^ 32

sum_bytes-lt : (b : Bytes) → sum_bytes b < 2 ^ 32
sum_bytes-lt [] = omega arith
sum_bytes-lt (b ∷ bs) = omega arith

recovery_example :
    read_records sum_bytes 2 (
      new_reader
        (add_records sum_bytes (new_writer 9 true) ((1 ∷ []) ∷ (2 ∷ 0 ∷ []) ∷ [])).0
        true
        9)
    ≡ ok (1 ∷ []) ∷ ok (2 ∷ 0 ∷ []) ∷ []
recovery_example =
    recovery sum_bytes sum_bytes-lt 9 true ((1 ∷ []) ∷ (2 ∷ 0 ∷ []) ∷ []) 2 (λ e. cc, (λ e. cc, tt))
      (omega arith)

abbrev two_records : WriteBatch
two_records = record {
  sequence = 12;
  records =
      record { op_type = OpType.put; user_key = 1 ∷ 2 ∷ []; value = some (3 ∷ []) }
      ∷ record { op_type = OpType.delete; user_key = 4 ∷ []; value = none }
      ∷ [];
}

decode-encode_batch_example :
    decode (encode two_records ++ 5 ∷ [])
    ≡ ok (record two_records { records = map normalized two_records.records })
decode-encode_batch_example =
    decode-encode_batch two_records (5 ∷ []) (omega arith) (omega arith)
      ((omega arith, omega arith), ((omega arith, omega arith), tt))

next_record-add_record_example :
    next_record sum_bytes (
      reader_at
        (new_writer 9 true)
        []
        ((add_record sum_bytes (new_writer 9 true) (4 ∷ 0 ∷ [])).0 ++ 6 ∷ []))
    ≡ (
      some (ok (4 ∷ 0 ∷ [])),
      reader_at
          (add_record sum_bytes (new_writer 9 true) (4 ∷ 0 ∷ [])).1
          ([] ++ (add_record sum_bytes (new_writer 9 true) (4 ∷ 0 ∷ [])).0)
          (6 ∷ []),
    )
next_record-add_record_example =
    next_record-add_record sum_bytes sum_bytes-lt (new_writer 9 true) [] (6 ∷ []) 4 (0 ∷ [])
      (omega arith)

abbrev small_batch : SeqNum → WriteBatch
small_batch seq = record {
  sequence = seq;
  records = record { op_type = OpType.put; user_key = 1 ∷ []; value = some (seq ∷ []) } ∷ [];
}

-- A log with one batch is closed and flushed, and the next one has two.
abbrev first_log : WalManager
first_log = append sum_bytes (open_dir [] 1) (small_batch 5)

abbrev second_log : WalManager
second_log =
    append sum_bytes (append sum_bytes (rotate first_log).1 (small_batch 6)) (small_batch 7)

abbrev refuses_none : ℕ → Bool
refuses_none n = false

small_batch-IsWritable : (seq : SeqNum) → seq < 2 ^ 64 → IsWritable (small_batch seq)
small_batch-IsWritable seq h = (h, omega arith, ((omega arith, omega arith), tt))

second_log-Run :
    Run sum_bytes
      (mark_flushed_seq refuses_none second_log 5)
      ((1, small_batch 5 ∷ []) ∷ [])
      (small_batch 6 ∷ small_batch 7 ∷ [])
unfolding open_dir create_file remove_file rotate append
second_log-Run = flushed _ _ _ refuses_none 5 (
    appended _ _ _ (small_batch 7)
      (appended _ _ _ (small_batch 6)
        (rotated first_log [] (small_batch 5 ∷ [])
          (appended (open_dir [] 1) [] [] (small_batch 5) (opened [] 1 tt tt tt (omega arith))
            (small_batch-IsWritable 5 (omega arith)))
          (omega arith))
        (small_batch-IsWritable 6 (omega arith)))
      (small_batch-IsWritable 7 (omega arith)))

recover_from_dir-Run_example :
    (kept : List Log) × Survives
      (mark_flushed_seq refuses_none second_log 5).flushed_seq
      ((1, small_batch 5 ∷ []) ∷ [])
      kept
    × (recover_from_dir sum_bytes (mark_flushed_seq refuses_none second_log 5).dir
        ≡ ok (
          all_batches kept ++ map read_back (small_batch 6 ∷ small_batch 7 ∷ []),
          greatest_of 0 (
              kept
              ++ (
                (mark_flushed_seq refuses_none second_log 5).log_number,
                small_batch 6 ∷ small_batch 7 ∷ [],
              )
                ∷ []),
          (mark_flushed_seq refuses_none second_log 5).log_number,
        ))
recover_from_dir-Run_example =
    recover_from_dir-Run sum_bytes sum_bytes-lt (mark_flushed_seq refuses_none second_log 5)
      ((1, small_batch 5 ∷ []) ∷ []) (small_batch 6 ∷ small_batch 7 ∷ [])
      (mark_flushed_seq refuses_none second_log 5).dir second_log-Run
      (same (mark_flushed_seq refuses_none second_log 5).dir)
