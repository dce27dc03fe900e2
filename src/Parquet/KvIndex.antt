-- ===== src/Parquet/KvIndex.antt =====
-- parquet/kv_index.rs: the sparse index from keys to data pages, with front coding between restarts.
pub mod Slices
pub mod Entry
pub mod Build
pub mod Ceil
pub mod Accept
pub mod Scan
pub mod Find
pub mod RoundTrip
mod Examples
use merutable.Bytes.{Bytes, to_le_bytes, from_le_bytes, cmp_bytes}
use merutable.Prelude.{
  ℕ, zero, suc, Bool, true, false, List, [], ◌∷◌, Option, none, some, ◌+◌, ◌-◌, ◌*◌, ◌/◌, ◌%◌, ◌^◌,
  max, Result, ok, err, panic, ◌>>=◌, ◌>>◌, guard, length, take, drop, get_elem?, ◌++◌, ◌==◌, not,
  ◌&&◌, ◌||◌, if◌then◌else◌, ltb, leb, gt,
}
use merutable.Prelude.MeruError.{corruption, parquet}

pub record PageLocation : Type 0 where
  pub page_offset : ℕ
  pub page_size : ℕ
  pub first_row_index : ℕ

-- A range of a slice; out of bounds it panics. `u16_at`, `u32_at` and `u64_at` read such a range.
unfoldable pub slice : Bytes → ℕ → ℕ → Result Bytes
slice buf pos n = if leb (pos + n) (length buf) then ok (take n (drop pos buf)) else panic

unfoldable pub u_at : ℕ → Bytes → ℕ → Result ℕ
u_at n buf pos = do s ← slice buf pos n; ok (from_le_bytes s)

-- `shared_prefix_len`
unfoldable pub shared_prefix_len : Bytes → Bytes → ℕ
shared_prefix_len [] ys = 0
shared_prefix_len (x ∷ xs) [] = 0
shared_prefix_len (x ∷ xs) (y ∷ ys) = if x == y then suc (shared_prefix_len xs ys) else 0

-- `(i as u32).is_multiple_of(restart_interval)`
unfoldable pub is_restart : ℕ → ℕ → Bool
is_restart restart_interval i = i % 2 ^ 32 % restart_interval == 0

-- What `build` appends for an entry
unfoldable pub encode_entry : ℕ → Bytes → PageLocation → Bytes
encode_entry shared key loc =
    to_le_bytes 2 (shared % 2 ^ 16)
    ++ (to_le_bytes 2 (length (drop shared key) % 2 ^ 16)
        ++ (drop shared key
            ++ (to_le_bytes 8 loc.page_offset
                ++ (to_le_bytes 4 loc.page_size ++ to_le_bytes 8 loc.first_row_index))))

unfoldable pub shared_of : ℕ → ℕ → Bytes → Bytes → ℕ
shared_of restart_interval i prev_key key =
    if is_restart restart_interval i then 0 else shared_prefix_len prev_key key

-- `key.as_slice() <= prev_key`
abbrev pub not_above : Bytes → Bytes → Bool
not_above key prev_key = elim (cmp_bytes key prev_key) [ gt ↦ false | _ ↦ true ]

-- The loop of `build`
unfoldable pub build_entries :
    ℕ → ℕ → Bytes → Bytes → List ℕ → List (Bytes × PageLocation) → Result (Bytes × List ℕ)
build_entries restart_interval i prev_key entries_buf restart_offsets [] =
    ok (entries_buf, restart_offsets)
build_entries restart_interval i prev_key entries_buf restart_offsets ((key, loc) ∷ entries) = do
  guard (leb (length key) 65535) parquet
  guard (not (ltb 0 i && not_above key prev_key)) parquet
  build_entries restart_interval (i + 1) key
      (entries_buf ++ encode_entry (shared_of restart_interval i prev_key key) key loc)
      (if is_restart restart_interval i
        then restart_offsets ++ (length entries_buf % 2 ^ 32) ∷ []
        else restart_offsets)
      entries

unfoldable pub offset_bytes : List ℕ → Bytes
offset_bytes [] = []
offset_bytes (ro ∷ ros) = to_le_bytes 4 ro ++ offset_bytes ros

-- The header: version, entries, interval, size of the entries, restarts
unfoldable pub header : ℕ → ℕ → ℕ → ℕ → Bytes
header num_entries restart_interval entries_size num_restarts =
    1
    ∷ 0
    ∷ 0
    ∷ 0
    ∷ (to_le_bytes 4 num_entries
        ++ (to_le_bytes 4 restart_interval
            ++ (to_le_bytes 4 entries_size ++ (to_le_bytes 4 num_restarts ++ to_le_bytes 4 0))))

-- `build`
unfoldable pub build : List (Bytes × PageLocation) → ℕ → Result Bytes
build entries restart_interval = do
  (entries_buf, restart_offsets) ← build_entries (max restart_interval 1) 0 [] [] [] entries
  ok (
      header (length entries % 2 ^ 32) (max restart_interval 1) (length entries_buf % 2 ^ 32)
        (length restart_offsets % 2 ^ 32)
      ++ (entries_buf ++ offset_bytes restart_offsets))

pub record KvSparseIndex : Type 0 where
  pub bytes : Bytes
  pub num_entries : ℕ
  pub restart_interval : ℕ
  pub entries_offset : ℕ
  pub entries_size : ℕ
  pub restart_offsets : List ℕ

-- `ro <= prev` for the offset before, if there is one
abbrev pub not_after : ℕ → Option ℕ → Bool
not_after ro none = false
not_after ro (some prev) = leb ro prev

-- The loop that loads the restart table, from its start and from index `i`
unfoldable pub load_restarts : Bytes → ℕ → ℕ → ℕ → Option ℕ → Result (List ℕ)
load_restarts bytes entries_size zero i prev_ro = ok []
load_restarts bytes entries_size (suc rounds) i prev_ro = do
  ro ← u_at 4 bytes (24 + entries_size + 4 * i)
  guard (leb ro entries_size) corruption
  guard (not (not_after ro prev_ro)) corruption
  ros ← load_restarts bytes entries_size rounds (i + 1) (some ro)
  ok (ro ∷ ros)

-- The restart table must name the offset of entry `i`; an index out of bounds would panic.
unfoldable pub check_restart : ℕ → List ℕ → ℕ → ℕ → Result (Unit {0})
check_restart restart_interval restart_offsets i cursor =
    if is_restart restart_interval i
    then (elim (get_elem? restart_offsets (i % 2 ^ 32 / restart_interval)) [
      | none ↦ panic
      | some ro ↦ guard (ro == cursor % 2 ^ 32) corruption
    ])
    else ok tt

-- The loop that validates each entry: the cursor at its end
unfoldable pub validate_entries : Bytes → ℕ → List ℕ → ℕ → ℕ → ℕ → ℕ → ℕ → Result ℕ
validate_entries bytes restart_interval restart_offsets entries_end zero i cursor prev_key_len =
    ok cursor
validate_entries bytes restart_interval restart_offsets entries_end (suc rounds) i cursor
      prev_key_len =
    do
      guard (leb (cursor + 4) entries_end) corruption
      shared ← u_at 2 bytes (24 + cursor)
      suffix_len ← u_at 2 bytes (24 + cursor + 2)
      guard (not (is_restart restart_interval i && not (shared == 0))) corruption
      guard (leb shared prev_key_len) corruption
      guard (leb (cursor + (4 + suffix_len + 20)) entries_end) corruption
      check_restart restart_interval restart_offsets i cursor
          >> validate_entries bytes restart_interval restart_offsets entries_end rounds (i + 1)
              (cursor + (4 + suffix_len + 20)) (shared + suffix_len)

-- `num_entries.div_ceil(restart_interval)`
unfoldable pub expected_restarts : ℕ → ℕ → ℕ
expected_restarts num_entries restart_interval =
    if num_entries == 0 then 0 else (num_entries + restart_interval - 1) / restart_interval

-- `KvSparseIndex::from_bytes`; the checked sums do not overflow a usize of 64 bits.
unfoldable pub from_bytes : Bytes → Result KvSparseIndex
from_bytes bytes = do
  guard (leb 24 (length bytes)) corruption
  version ← u_at 1 bytes 0
  guard (version == 1) corruption
  num_entries ← u_at 4 bytes 4
  restart_interval ← u_at 4 bytes 8
  entries_size ← u_at 4 bytes 12
  num_restarts ← u_at 4 bytes 16
  guard (not (restart_interval == 0)) corruption
  guard (length bytes == 24 + entries_size + 4 * num_restarts) corruption
  restart_offsets ← load_restarts bytes entries_size num_restarts 0 none
  guard (num_restarts == expected_restarts num_entries restart_interval) corruption
  cursor ← validate_entries bytes restart_interval restart_offsets entries_size num_entries 0 0 0
  guard (cursor == entries_size) corruption
  ok (record {
    bytes = bytes;
    num_entries = num_entries;
    restart_interval = restart_interval;
    entries_offset = 24;
    entries_size = entries_size;
    restart_offsets = restart_offsets;
  })

-- `decode_entry_at`: the key, the location and the next cursor
unfoldable pub decode_entry_at : KvSparseIndex → ℕ → Bytes → Result (Bytes × (PageLocation × ℕ))
decode_entry_at index cursor prev_key = do
  let pos = index.entries_offset + cursor
  shared ← u_at 2 index.bytes pos
  suffix_len ← u_at 2 index.bytes (pos + 2)
  suffix ← slice index.bytes (pos + 4) suffix_len
  front ← slice prev_key 0 shared
  page_offset ← u_at 8 index.bytes (pos + 4 + suffix_len)
  page_size ← u_at 4 index.bytes (pos + 4 + suffix_len + 8)
  first_row_index ← u_at 8 index.bytes (pos + 4 + suffix_len + 12)
  ok (
    front ++ suffix,
    (
      record {
        page_offset = page_offset;
        page_size = page_size;
        first_row_index = first_row_index;
      },
      pos + 4 + suffix_len + 20 - index.entries_offset,
    ),
  )

-- `read_restart_key`
unfoldable pub read_restart_key : KvSparseIndex → ℕ → Result Bytes
read_restart_key index idx = elim (get_elem? index.restart_offsets idx) [
  | none ↦ panic
  | some ro ↦ do
    suffix_len ← u_at 2 index.bytes (index.entries_offset + ro + 2)
    slice index.bytes (index.entries_offset + ro + 4) suffix_len
]

-- The binary search of `find_page_inner`, with `lo + 1` for `lo`, which starts at -1. Its fuel is
-- more than the number of restarts, and it panics if that runs out.
unfoldable pub search_restarts : KvSparseIndex → Bytes → ℕ → ℕ → ℕ → Result ℕ
search_restarts index target zero lo hi = panic
search_restarts index target (suc fuel) lo hi =
    let mid = (lo + hi - 1) / 2 in
    elim (ltb lo hi) [
      | false ↦ ok lo
      | true ↦ (do
        mid_key ← read_restart_key index mid
        elim (cmp_bytes mid_key target) [
          | gt ↦ search_restarts index target fuel lo mid
          | _ ↦ search_restarts index target fuel (mid + 1) hi
        ])
    ]

-- `best.map(|loc| (loc, next_first_row))`
abbrev pub with_next : Option PageLocation → Option ℕ → Option (PageLocation × Option ℕ)
with_next none next_first_row = none
with_next (some loc) next_first_row = some (loc, next_first_row)

-- The linear scan of `find_page_inner`, with fuel as above
unfoldable pub scan :
    KvSparseIndex
    → Bytes
    → ℕ
    → ℕ
    → Bytes
    → Option PageLocation
    → Result (Option (PageLocation × Option ℕ))
scan index target zero cursor prev_key best = panic
scan index target (suc fuel) cursor prev_key best = elim (leb index.entries_size cursor) [
  | true ↦ ok (with_next best none)
  | false ↦ (do
    (entry_key, (loc, next_cursor)) ← decode_entry_at index cursor prev_key
    elim (cmp_bytes entry_key target) [
      | gt ↦ ok (with_next best (some loc.first_row_index))
      | _ ↦ scan index target fuel next_cursor entry_key (some loc)
    ])
]

-- Where the scan starts
unfoldable pub scan_start : KvSparseIndex → ℕ → Result ℕ
scan_start index zero = ok 0
scan_start index (suc lo) = elim (get_elem? index.restart_offsets lo) [
  | none ↦ panic
  | some ro ↦ ok ro
]

-- `find_page_with_next`, which is `find_page_inner`
unfoldable pub find_page_with_next :
    KvSparseIndex → Bytes → Result (Option (PageLocation × Option ℕ))
find_page_with_next index target = elim (index.num_entries == 0) [
  | true ↦ ok none
  | false ↦ (do
    lo ←
        search_restarts index target (length index.restart_offsets + 1) 0
          (length index.restart_offsets)
    scan_start_pos ← scan_start index lo
    scan index target (index.entries_size + 1) scan_start_pos [] none)
]

-- `KvSparseIndexIter::next` until it ends
unfoldable pub iterate : KvSparseIndex → ℕ → ℕ → Bytes → Result (List (Bytes × PageLocation))
iterate index zero cursor prev_key = ok []
iterate index (suc remaining) cursor prev_key = do
  (key, (loc, next)) ← decode_entry_at index cursor prev_key
  rest ← iterate index remaining next key
  ok ((key, loc) ∷ rest)

-- `KvSparseIndex::iter`
unfoldable pub iter : KvSparseIndex → Result (List (Bytes × PageLocation))
iter index = iterate index index.num_entries 0 []
