-- ===== src/Wal/Log/RoundTrip/Offsets.antt =====
-- Where the writer and the reader of a log stand in a block (wal/writer.rs, wal/reader.rs).
use merutable.Prelude.{
  ℕ, zero, suc, ◌+◌, ◌-◌, ◌%◌, ◌^◌, ◌≤◌, min, ◌≡◌, refl, ap, ◌∙◌, arith, Bool, true, false, some,
  ok, [], ◌++◌, append_assoc, length, take, drop, replicate, length-append, take-append-drop,
  length-take, length-replicate, append-nil, not,
}
use merutable.Bytes.{Bytes}
use merutable.Wal.Format.{block_size, is_recyclable, header_size}
use merutable.Wal.Log.{
  WalWriter, WalReader, skip_padding, record_type, pad_block, read_physical_record,
  next_record_loop,
}
use merutable.Wal.Log.Physical.{reader_at, behind}

-- The offset of a writer lies in its block.
abbrev pub InBlock : WalWriter → Type 0
InBlock w = w.block_offset ≤ block_size

-- The type of a fragment is of the log's kind.
pub is_recyclable-record_type : (r f l : Bool) → is_recyclable (record_type r f l) ≡ r
unfolding record_type
is_recyclable-record_type true f l = ground arith
is_recyclable-record_type false f l = ground arith

-- After `pad_block` the block has room for a header.
pub pad_block_room :
    (w : WalWriter) → (pad_block w).1.block_offset + header_size w.recyclable ≤ block_size
pad_block_room w = ground arith

replicate-zero : (n : ℕ) → n ≡ 0 → replicate {A = ℕ} n 0 ≡ []
replicate-zero zero h = refl
replicate-zero (suc n) h = absurd (omega arith)

-- The reader passes over the padding, or does not see that the writer began a block.
pub skip_padding-pad_block :
    (w : WalWriter) (front tail : Bytes)
    → InBlock w
    → skip_padding (reader_at w front ((pad_block w).0 ++ tail))
      ≡ reader_at (pad_block w).1 (front ++ (pad_block w).0) tail
skip_padding-pad_block w front tail h =
    let pad : Bytes = replicate (block_size - w.block_offset) 0 in
    ground (
      arith,
      append_assoc front pad tail,
      append-nil front,
      length-append front pad,
      length-replicate {A = ℕ} (block_size - w.block_offset) 0,
      replicate-zero (block_size - w.block_offset),
    )

-- What the reader has of a record: nothing, before its first fragment.
abbrev pub so_far : Bool → Bytes → Bytes
so_far true assembled = []
so_far false assembled = assembled

module _ (crc : Bytes → ℕ) where
  pub loop_last :
      (r f : Bool) (rounds : ℕ) (rd rd' : WalReader) (assembled payload : Bytes)
      → read_physical_record crc (length rd.source + 1) rd
        ≡ (ok (some (record_type r f true, payload)), rd')
      → next_record_loop crc (suc rounds) rd assembled (not f)
        ≡ (some (ok (so_far f assembled ++ payload)), rd')
  unfolding next_record_loop record_type
  loop_last true true rounds rd rd' assembled payload e = rw (e, next_record_loop) (rw e)
  loop_last true false rounds rd rd' assembled payload e = rw (e, next_record_loop) (rw e)
  loop_last false true rounds rd rd' assembled payload e = rw (e, next_record_loop) (rw e)
  loop_last false false rounds rd rd' assembled payload e = rw (e, next_record_loop) (rw e)

  pub loop_more :
      (r f : Bool) (rounds : ℕ) (rd rd' : WalReader) (assembled payload : Bytes)
      → read_physical_record crc (length rd.source + 1) rd
        ≡ (ok (some (record_type r f false, payload)), rd')
      → next_record_loop crc (suc rounds) rd assembled (not f)
        ≡ next_record_loop crc rounds rd' (so_far f assembled ++ payload) true
  unfolding next_record_loop record_type
  loop_more true true rounds rd rd' assembled payload e = rw (e, next_record_loop) (rw e)
  loop_more true false rounds rd rd' assembled payload e = rw (e, next_record_loop) (rw e)
  loop_more false true rounds rd rd' assembled payload e = rw (e, next_record_loop) (rw e)
  loop_more false false rounds rd rd' assembled payload e = rw (e, next_record_loop) (rw e)

-- The reader behind a record stands where the writer does.
pub behind-eq-reader_at :
    (w : WalWriter) (front pad head p rest : Bytes)
    → length head ≡ header_size w.recyclable
    → behind w (front ++ pad) head p rest
      ≡ reader_at
          (record w { block_offset = w.block_offset + (header_size w.recyclable + length p) })
          (front ++ (pad ++ (head ++ p)))
          rest
behind-eq-reader_at w front pad head p rest h = λ i. record {
  source = source i;
  file_offset = file i;
  block_offset = block i;
  recyclable = w.recyclable;
  expected_log_number = w.log_number % 2 ^ 32;
  eof = false;
}
  where
    source : (front ++ pad) ++ (head ++ (p ++ rest)) ≡ (front ++ (pad ++ (head ++ p))) ++ rest
    source = simp append_assoc

    file :
        length (front ++ pad) + (header_size w.recyclable + length p)
        ≡ length (front ++ (pad ++ (head ++ p)))
    file = omega (
      arith,
      h,
      length-append front pad,
      length-append head p,
      length-append front (pad ++ (head ++ p)),
      length-append pad (head ++ p),
    )

    block :
        (w.block_offset % block_size + (header_size w.recyclable + length p)) % block_size
        ≡ (w.block_offset + (header_size w.recyclable + length p)) % block_size
    block = omega arith

-- The room for a fragment, the fragment and what is left of a payload.
abbrev pub capacity : WalWriter → ℕ
capacity w = block_size - (pad_block w).1.block_offset - header_size (pad_block w).1.recyclable

abbrev pub fragment_of : WalWriter → Bytes → Bytes
fragment_of w p = take (min (length p) (capacity w)) p

abbrev pub rest_of : WalWriter → Bytes → Bytes
rest_of w p = drop (length (fragment_of w p)) p

pub length-fragment_of :
    (w : WalWriter) (p : Bytes) → length (fragment_of w p) ≡ min (length p) (capacity w)
length-fragment_of w p = omega (arith, length-take (min (length p) (capacity w)) p)

pub fragment-rest : (w : WalWriter) (p : Bytes) → fragment_of w p ++ rest_of w p ≡ p
fragment-rest w p =
    ap (λ (n : ℕ). fragment_of w p ++ drop n p) (length-fragment_of w p)
    ∙ take-append-drop (min (length p) (capacity w)) p

pub pad_block_kind : (w : WalWriter) → (pad_block w).1.recyclable ≡ w.recyclable
pad_block_kind w = ground arith
