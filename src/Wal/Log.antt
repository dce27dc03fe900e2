-- ===== src/Wal/Log.antt =====
-- wal/writer.rs and wal/reader.rs: a log of records in blocks of 32 KiB. The checksum is that of
-- crc32fast, a parameter. A sink takes every `append`; a source is the bytes of a file.
pub mod Physical
pub mod RoundTrip
pub mod Recovery
use merutable.Prelude.{
  ℕ, zero, suc, ◌+◌, ◌-◌, ◌%◌, ◌^◌, min, Bool, true, false, not, ◌&&◌, Option, none, some, List, [],
  ◌∷◌, ◌++◌, length, take, drop, replicate, ltb, leb, ◌==◌, if◌then◌else◌, Result, ok, err, panic,
  ◌>>=◌, ◌>>◌, guard, corruption,
}
use merutable.Bytes.{Bytes, to_le_bytes, from_le_bytes}
use merutable.Wal.Format.{
  block_size, RecordType, full, first, middle, last, recyclable_full, recyclable_first,
  recyclable_middle, recyclable_last, type_byte, from_byte, is_recyclable, header_size,
}

-- The sink is not a field: each operation returns the bytes that it appends.
pub record WalWriter : Type 0 where
  pub block_offset : ℕ
  pub log_number : ℕ
  pub recyclable : Bool

-- `WalWriter::new`
abbrev pub new_writer : ℕ → Bool → WalWriter
new_writer n r = record { block_offset = 0; log_number = n; recyclable = r }

-- The choice of `rtype` in `add_record`, from `recyclable`, `is_first` and `remaining.is_empty()`
unfoldable pub record_type : Bool → Bool → Bool → RecordType
record_type recyclable is_first is_last =
    if is_first && is_last
    then (if recyclable then recyclable_full else full)
    else if is_first
    then (if recyclable then recyclable_first else first)
    else if is_last
    then (if recyclable then recyclable_last else last)
    else (if recyclable then recyclable_middle else middle)

abbrev pub is_empty : Bytes → Bool
is_empty [] = true
is_empty (b ∷ bs) = false

-- What the writer does before a fragment: the padding, and the offset then
abbrev pub pad_block : WalWriter → Bytes × WalWriter
pad_block w =
    let available = block_size - w.block_offset in
    if ltb available (header_size w.recyclable)
    then (replicate available 0, record w { block_offset = 0 })
    else ([], w)

module _ (crc : Bytes → ℕ) where
  -- The header that `emit_physical_record` builds
  unfoldable pub header : WalWriter → RecordType → Bytes → Bytes
  header w rtype payload =
      to_le_bytes 4 (crc (type_byte rtype ∷ payload))
      ++ (to_le_bytes 2 (length payload % 2 ^ 16)
          ++ (type_byte rtype
              ∷ (if w.recyclable then to_le_bytes 4 (w.log_number % 2 ^ 32) else [])))

  -- `emit_physical_record`
  unfoldable pub emit_physical_record : WalWriter → RecordType → Bytes → Bytes × WalWriter
  emit_physical_record w rtype payload = (
    header w rtype payload ++ payload,
    record w { block_offset = w.block_offset + (header_size w.recyclable + length payload) },
  )

  -- The loop of `add_record`. A round takes a byte at least, but for a first one that fills a block
  -- with its header, so there are `length remaining + 1` at most.
  unfoldable pub add_record_loop : ℕ → WalWriter → Bytes → Bool → Bytes × WalWriter
  add_record_loop zero w remaining is_first = ([], w)
  add_record_loop (suc rounds) w [] is_first = ([], w)
  add_record_loop (suc rounds) w (b ∷ bs) is_first =
      let (pad, w1) = pad_block w in
      let capacity = block_size - w1.block_offset - header_size w1.recyclable in
      let fragment = take (min (length (b ∷ bs)) capacity) (b ∷ bs) in
      let remaining = drop (length fragment) (b ∷ bs) in
      let rtype = record_type w1.recyclable is_first (is_empty remaining) in
      let (out, w2) = emit_physical_record w1 rtype fragment in
      let (more, w3) = add_record_loop rounds w2 remaining false in (pad ++ (out ++ more), w3)

  -- `WalWriter::add_record`
  unfoldable pub add_record : WalWriter → Bytes → Bytes × WalWriter
  add_record w payload = add_record_loop (length payload + 1) w payload true

  -- The records of a log, one after the other
  unfoldable pub add_records : WalWriter → List Bytes → Bytes × WalWriter
  add_records w [] = ([], w)
  add_records w (p ∷ ps) =
      let (out, w1) = add_record w p in let (more, w2) = add_records w1 ps in (out ++ more, w2)

pub record WalReader : Type 0 where
  pub source : Bytes
  pub file_offset : ℕ
  pub block_offset : ℕ
  pub recyclable : Bool
  pub expected_log_number : ℕ
  pub eof : Bool

-- `WalReader::new` and `WalReader::new_recyclable`
abbrev pub new_reader : Bytes → Bool → ℕ → WalReader
new_reader source recyclable expected = record {
  source = source;
  file_offset = 0;
  block_offset = 0;
  recyclable = recyclable;
  expected_log_number = expected;
  eof = false;
}

-- `WalSource::read_at`
abbrev pub read_at : Bytes → ℕ → ℕ → Bytes
read_at source offset n = take n (drop offset source)

-- To the start of the next block
abbrev pub skip_block : WalReader → WalReader
skip_block r = record r {
  file_offset = r.file_offset + (block_size - r.block_offset);
  block_offset = 0;
}

-- The tail of a block that cannot hold a header
abbrev pub skip_padding : WalReader → WalReader
skip_padding r =
    if ltb (block_size - r.block_offset) (header_size r.recyclable) then skip_block r else r

-- What `read_at` returned for a header: `n == 0`, `n < header_size`, the zero-pad sentinel, or else
pub data Head : Type 0 where
  nothing truncated zeros written : Head

unfoldable pub classify_head : ℕ → Bytes → Head
classify_head hs head =
    if length head == 0
    then nothing
    else if ltb (length head) hs
    then truncated
    else if from_le_bytes (take 4 head) == 0
        && (from_le_bytes (take 2 (drop 4 head)) == 0 && from_le_bytes (take 1 (drop 6 head)) == 0)
    then zeros
    else written

-- The checks on the record type and the log number: whether the record is of this log
unfoldable pub check_type : WalReader → RecordType → Bytes → Result Bool
check_type r rtype head =
    if r.recyclable
    then (if is_recyclable rtype
        then ok (from_le_bytes (take 4 (drop 7 head)) == r.expected_log_number)
        else err corruption)
    else if is_recyclable rtype
    then err corruption
    else ok true

abbrev pub Step : Type 0
Step = Result (Option (RecordType × Bytes)) × WalReader

module _ (crc : Bytes → ℕ) where
  -- From the payload on
  unfoldable pub read_payload : WalReader → RecordType → ℕ → ℕ → Step
  read_payload r rtype stored len =
      let hs = header_size r.recyclable in
      let payload = read_at r.source (r.file_offset + hs) len in
      if ltb (length payload) len
      then (err corruption, r)
      else if crc (type_byte rtype ∷ payload) == stored
      then (
        ok (some (rtype, payload)),
        record r {
          file_offset = r.file_offset + (hs + len);
          block_offset = (r.block_offset + (hs + len)) % block_size;
        },
      )
      else (err corruption, r)

  -- After the checks on the type
  unfoldable pub read_checked : WalReader → RecordType → Bytes → Result Bool → Step
  read_checked r rtype head (ok true) =
      read_payload r rtype (from_le_bytes (take 4 head)) (from_le_bytes (take 2 (drop 4 head)))
  read_checked r rtype head (ok false) = (ok none, r)
  read_checked r rtype head (err e) = (err e, r)
  read_checked r rtype head panic = (panic, r)

  -- From the type byte on
  unfoldable pub read_typed : WalReader → Bytes → Option RecordType → Step
  unfolding check_type read_checked
  read_typed r head none = (err corruption, r)
  read_typed r head (some rtype) = read_checked r rtype head (check_type r rtype head)

  -- `read_physical_record`: its loop goes round once for each block that begins with zeros. `panic`
  -- stands for running out of rounds, which one more round than bytes left prevents.
  unfoldable pub read_physical_record : ℕ → WalReader → Step
  read_physical_record zero r = (panic, r)
  read_physical_record (suc rounds) r0 =
      let r = skip_padding r0 in
      let head = read_at r.source r.file_offset (header_size r.recyclable) in
      elim (classify_head (header_size r.recyclable) head) [
        | nothing ↦ (ok none, r)
        | truncated ↦ (err corruption, r)
        | zeros ↦ read_physical_record rounds (skip_block r)
        | written ↦ read_typed r head (from_byte (from_le_bytes (take 1 (drop 6 head))))
      ]

  -- The loop of `next_record`. The physical reads take one round more than there are bytes; `panic`
  -- stands for running out of either count of rounds.
  unfoldable pub next_record_loop : ℕ → WalReader → Bytes → Bool → Option (Result Bytes) × WalReader
  next_record_loop zero r assembled in_fragment = (some panic, r)
  next_record_loop (suc rounds) r assembled in_fragment =
      let (got, r') = read_physical_record (length r.source + 1) r in
      elim got [
        | ok none ↦ (none, record r' { eof = true })
        | ok (some (rtype, payload)) ↦ elim rtype [
          | full ↦ (if in_fragment then some (err corruption) else some (ok payload), r')
          | recyclable_full ↦ (if in_fragment then some (err corruption) else some (ok payload), r')
          | first ↦ elim in_fragment [
            | true ↦ (some (err corruption), r')
            | false ↦ next_record_loop rounds r' payload true
          ]
          | recyclable_first ↦ elim in_fragment [
            | true ↦ (some (err corruption), r')
            | false ↦ next_record_loop rounds r' payload true
          ]
          | middle ↦ elim in_fragment [
            | true ↦ next_record_loop rounds r' (assembled ++ payload) true
            | false ↦ (some (err corruption), r')
          ]
          | recyclable_middle ↦ elim in_fragment [
            | true ↦ next_record_loop rounds r' (assembled ++ payload) true
            | false ↦ (some (err corruption), r')
          ]
          | last ↦
              (if in_fragment then some (ok (assembled ++ payload)) else some (err corruption), r')
          | recyclable_last ↦
              (if in_fragment then some (ok (assembled ++ payload)) else some (err corruption), r')
        ]
        | err e ↦ (none, record r' { eof = true })
        | panic ↦ (some panic, r')
      ]

  -- `WalReader::next_record`
  unfoldable pub next_record : WalReader → Option (Result Bytes) × WalReader
  next_record r = if r.eof then (none, r) else next_record_loop (length r.source + 1) r [] false

  -- `RecordIter`: the items, up to a count of calls
  unfoldable pub read_records : ℕ → WalReader → List (Result Bytes)
  read_records zero r = []
  read_records (suc calls) r =
      let (item, r') = next_record r in elim item [ none ↦ [] | some x ↦ x ∷ read_records calls r' ]
