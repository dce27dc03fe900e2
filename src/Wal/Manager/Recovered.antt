-- ===== src/Wal/Manager/Recovered.antt =====
-- What recovery makes of the files of a directory (wal/manager.rs).
use merutable.Bytes.{Bytes, to_le_bytes}
use merutable.Wal.Batch
use merutable.Wal.Batch.{WriteBatch, last_seq}
use merutable.Wal.Batch.RoundTrip.{normalized, Fits, decode-encode_batch}
use merutable.Wal.Manager.{recover_records, recover_logs, raised}
use merutable.Wal.Manager.Content.{log_of, read_records-log_of}
use merutable.Prelude.{
  map, ◌<◌, ℕ, List, ◌≡◌, ◌≢◌, All, [], ◌∷◌, ◌^◌, length, ◌++◌, ap, ok, suc, sym, append-nil, refl,
  append_assoc, ◌∙◌, arith, length-append, ◌%◌,
}
use merutable.Types.Sequence.{SeqNum}
use merutable.Bytes.Words.{length-to_le_bytes}

-- A log: its number, and the batches that were appended to it
abbrev pub Log : Type 0
Log = ℕ × List WriteBatch

-- What the fields of the format can carry
abbrev pub IsWritable : WriteBatch → Type 0
IsWritable b = (b.sequence < 2 ^ 64) × (length b.records < 2 ^ 32) × All Fits b.records

-- A batch as it is read back: a missing value is an empty one.
abbrev pub read_back : WriteBatch → WriteBatch
read_back b = record b { records = map normalized b.records }

abbrev pub all_batches : List Log → List WriteBatch
all_batches [] = []
all_batches (l ∷ ls) = map read_back l.1 ++ all_batches ls

-- The greatest of a number and the last sequence numbers of the batches
abbrev pub greatest : SeqNum → List WriteBatch → SeqNum
greatest m [] = m
greatest m (b ∷ bs) = greatest (raised m (last_seq b)) bs

abbrev pub greatest_of : SeqNum → List Log → SeqNum
greatest_of m [] = m
greatest_of m (l ∷ ls) = greatest_of (greatest m l.1) ls

abbrev pub highest : ℕ → List Log → ℕ
highest n [] = n
highest n (l ∷ ls) = highest (raised n l.0) ls

pub length-map : {A B : Type 0} (f : A → B) (xs : List A) → length (map f xs) ≡ length xs
length-map f [] = refl
length-map f (x ∷ xs) = ap suc (length-map f xs)

last_seq-read_back : (b : WriteBatch) → last_seq (read_back b) ≡ last_seq b
unfolding last_seq
last_seq-read_back b = rw (length-map normalized b.records)

recover_records-encode :
    (bs batches : List WriteBatch) (m : SeqNum)
    → All IsWritable bs
    → recover_records (map ok (map Batch.encode bs)) batches m
      ≡ ok (batches ++ map read_back bs, greatest m bs)
unfolding recover_records
recover_records-encode [] batches m h = λ i. ok (sym (append-nil batches) i, m)
recover_records-encode (b ∷ bs) batches m (h, hs) =
    let back : Batch.decode (Batch.encode b) ≡ ok (read_back b) =
      ap Batch.decode (sym (append-nil (Batch.encode b))) ∙ decode-encode_batch b [] h.0 h.1 h.2 in
    rw (back, recover_records, last_seq-read_back b)
      (rw (recover_records-encode bs (batches ++ read_back b ∷ []) (raised m (last_seq b)) hs) (λ i.
        ok (
          append_assoc batches (read_back b ∷ []) (map read_back bs) i,
          greatest (raised m (last_seq b)) bs,
        )))

encode-ne-nil : (b : WriteBatch) → Batch.encode b ≢ []
unfolding Batch.encode
encode-ne-nil b e =
    let front = to_le_bytes 8 b.sequence in
    let none_left = ap length e in
    omega (
      arith,
      none_left,
      length-to_le_bytes 8 b.sequence,
      length-append front
          (to_le_bytes 4 (length b.records % 2 ^ 32) ++ Batch.encode_records b.records),
    )

encode-ne : (bs : List WriteBatch) → All (λ p. p ≢ []) (map Batch.encode bs)
encode-ne [] = tt
encode-ne (b ∷ bs) = (encode-ne-nil b, encode-ne bs)

module _ (crc : Bytes → ℕ) where
  -- The file of a log
  abbrev pub file_of : Log → ℕ × Bytes
  file_of l = (l.0, (log_of crc (map Batch.encode l.1)).0)

module _ (crc : Bytes → ℕ) (crc-lt : (b : Bytes) → crc b < 2 ^ 32) where
  pub recover_logs-file_of :
      (ls : List Log) (batches : List WriteBatch) (m : SeqNum) (n : ℕ)
      → All (λ l. All IsWritable l.1) ls
      → recover_logs crc (map (file_of crc) ls) batches m n
        ≡ ok (batches ++ all_batches ls, greatest_of m ls, highest n ls)
  unfolding recover_logs
  recover_logs-file_of [] batches m n h = λ i. ok (sym (append-nil batches) i, m, n)
  recover_logs-file_of (l ∷ ls) batches m n (h, hs) =
      rw (read_records-log_of crc crc-lt (map Batch.encode l.1) (encode-ne l.1)) (
        rw (recover_records-encode l.1 batches m h) (
          rw
            (recover_logs-file_of ls (batches ++ map read_back l.1) (greatest m l.1) (raised n l.0)
              hs)
            (λ i. ok (
              append_assoc batches (map read_back l.1) (all_batches ls) i,
              greatest_of (greatest m l.1) ls,
              highest (raised n l.0) ls,
            ))))
