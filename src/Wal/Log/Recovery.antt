-- ===== src/Wal/Log/Recovery.antt =====
-- Whole logs: recovery returns the records that were written, in order.
use native.Mathlib.Numerals.{add-one}
use merutable.Prelude.{
  ℕ, zero, suc, ◌+◌, ◌^◌, ◌≤◌, ◌<◌, ◌≡◌, ◌≢◌, refl, sym, ap, subst, ◌∙◌, arith, Bool, true, false,
  some, none, ok, List, [], ◌∷◌, ◌++◌, length, take, drop, length-append, length-drop, map, All,
  Result, ◌%◌,
}
use merutable.Bytes.{Bytes}
use merutable.Wal.Format.{header_size}
use merutable.Wal.Log.{
  WalWriter, WalReader, header, emit_physical_record, read_at, skip_padding, pad_block, nothing,
  classify_head, add_record_loop, add_record, add_records, read_physical_record, next_record_loop,
  next_record, read_records, new_writer, new_reader,
}
use merutable.Wal.Log.Physical.{reader_at}
use merutable.Wal.Log.RoundTrip.{
  needs, emitted, fragment_fills, add_round_last, add_round_more, next_record_loop-add,
}
use merutable.Wal.Log.RoundTrip.Offsets.{
  InBlock, fragment_of, rest_of, length-fragment_of, pad_block_room, pad_block_kind,
}

module _ (crc : Bytes → ℕ) (crc-lt : (b : Bytes) → crc b < 2 ^ 32) where
  emitted_size :
      (w : WalWriter) (p : Bytes) (f l : Bool)
      → (length (fragment_of w p) ≤ length (emitted crc w p f l).0)
        × InBlock (emitted crc w p f l).1
  unfolding emit_physical_record
  emitted_size w p f l = (
    omega (arith, length-append (header crc (pad_block w).1 _ (fragment_of w p)) (fragment_of w p)),
    omega (arith, length-fragment_of w p, pad_block_room w, ap header_size (pad_block_kind w)),
  )

  -- A record takes as many bytes as its payload, and leaves the writer in a block.
  pub add_record_loop_size :
      (fw : ℕ) (w : WalWriter) (b : ℕ) (bs : Bytes) (f : Bool)
      → InBlock w
      → needs crc crc-lt w (b ∷ bs) ≤ fw
      → (length (b ∷ bs) ≤ length (add_record_loop crc fw w (b ∷ bs) f).0)
        × InBlock (add_record_loop crc fw w (b ∷ bs) f).1
  add_record_loop_size zero w b bs f h g = absurd (omega arith)
  add_record_loop_size (suc fw) w b bs f h g =
      split (rest_of w (b ∷ bs)) refl (add_record_loop_size fw)
    where
      Size : Bytes × WalWriter → Type 0
      Size out = (length (b ∷ bs) ≤ length out.0) × InBlock out.1

      split :
          (left : Bytes)
          → rest_of w (b ∷ bs) ≡ left
          → ((w : WalWriter) (b : ℕ) (bs : Bytes) (f : Bool)
              → InBlock w
              → needs crc crc-lt w (b ∷ bs) ≤ fw
              → (length (b ∷ bs) ≤ length (add_record_loop crc fw w (b ∷ bs) f).0)
                × InBlock (add_record_loop crc fw w (b ∷ bs) f).1)
          → Size (add_record_loop crc (suc fw) w (b ∷ bs) f)
      split [] e ih =
          let em = emitted crc w (b ∷ bs) f true in
          let (size, stays) = emitted_size w (b ∷ bs) f true in
          let left = length-drop (length (fragment_of w (b ∷ bs))) (b ∷ bs) in
          let none_left = ap length e in
          subst Size (sym (add_round_last crc fw w b bs f e)) (
            omega (
              arith,
              size,
              left,
              none_left,
              length-append (pad_block w).0 (em.0 ++ []),
              length-append em.0 [],
            ),
            stays,
          )
      split (c ∷ cs) e ih =
          let em = emitted crc w (b ∷ bs) f false in
          let (size, stays) = emitted_size w (b ∷ bs) f false in
          let (stays', enough) = fragment_fills crc crc-lt w (b ∷ bs) c cs f fw e g in
          let (more_size, more_stays) = ih em.1 c cs false stays' enough in
          let more = (add_record_loop crc fw em.1 (c ∷ cs) false).0 in
          let left = length-drop (length (fragment_of w (b ∷ bs))) (b ∷ bs) in
          let some_left = ap length e in
          subst Size (sym (add_round_more crc fw w b bs f c cs e)) (
            omega (
              arith,
              size,
              more_size,
              left,
              some_left,
              length-append (pad_block w).0 (em.0 ++ more),
              length-append em.0 more,
            ),
            more_stays,
          )

  -- From where a writer stands, `next_record` returns the payload that it wrote, whatever follows,
  -- and stops where the writer stopped.
  pub next_record-add_record :
      (w : WalWriter) (front rest : Bytes) (b : ℕ) (bs : Bytes)
      → InBlock w
      → next_record crc (reader_at w front ((add_record crc w (b ∷ bs)).0 ++ rest)) ≡ (
        some (ok (b ∷ bs)),
        reader_at (add_record crc w (b ∷ bs)).1 (front ++ (add_record crc w (b ∷ bs)).0) rest,
      )
  unfolding next_record add_record
  next_record-add_record w front rest b bs h =
      let fuel : ℕ = length (b ∷ bs) + 1 in
      let out = add_record_loop crc fuel w (b ∷ bs) true in
      let (size, stays) = add_record_loop_size fuel w b bs true h (omega arith) in
      next_record_loop-add crc crc-lt fuel (length (front ++ (out.0 ++ rest)) + 1) w front rest b bs
        true [] h (omega arith)
        (omega (arith, size, length-append front (out.0 ++ rest), length-append out.0 rest))

  pub add_record-InBlock :
      (w : WalWriter) (b : ℕ) (bs : Bytes) → InBlock w → InBlock (add_record crc w (b ∷ bs)).1
  unfolding add_record
  add_record-InBlock w b bs h =
      (add_record_loop_size (length (b ∷ bs) + 1) w b bs true h (omega arith)).1

  drop_beyond : (n : ℕ) (x : Bytes) → length x ≤ n → drop n x ≡ []
  drop_beyond zero [] h = refl
  drop_beyond (suc n) [] h = refl
  drop_beyond zero (b ∷ x) h = absurd (omega arith)
  drop_beyond (suc n) (b ∷ x) h = drop_beyond n x (omega arith)

  take_nil : (n : ℕ) → take {A = ℕ} n [] ≡ []
  take_nil zero = refl
  take_nil (suc n) = refl

  skip_padding_offset :
      (r : WalReader)
      → (r.file_offset ≤ (skip_padding r).file_offset) × ((skip_padding r).source ≡ r.source)
  skip_padding_offset r = ground arith

  classify_nil : (hs : ℕ) → classify_head hs [] ≡ nothing
  unfolding classify_head
  classify_nil hs = refl

  -- At the end of the source there is no record.
  physical_end :
      (rounds : ℕ) (r : WalReader)
      → length r.source ≤ r.file_offset
      → read_physical_record crc (suc rounds) r ≡ (ok none, skip_padding r)
  unfolding read_physical_record
  physical_end rounds r h =
      let (further, same) = skip_padding_offset r in
      let empty : read_at (skip_padding r).source (skip_padding r).file_offset
            (header_size (skip_padding r).recyclable)
          ≡ [] =
        ap (take (header_size (skip_padding r).recyclable)) (
          drop_beyond (skip_padding r).file_offset (skip_padding r).source
            (omega (arith, further, ap length same)))
        ∙ take_nil (header_size (skip_padding r).recyclable) in
      rw (empty, classify_nil (header_size (skip_padding r).recyclable), read_physical_record)

  next_record_loop_end :
      (rounds : ℕ) (r r' : WalReader) (assembled : Bytes) (inside : Bool)
      → read_physical_record crc (length r.source + 1) r ≡ (ok none, r')
      → (next_record_loop crc (suc rounds) r assembled inside).0 ≡ none
  unfolding next_record_loop
  next_record_loop_end rounds r r' assembled inside e = rw (e, next_record_loop)

  next_record_end :
      (w : WalWriter) (front : Bytes) → (next_record crc (reader_at w front [])).0 ≡ none
  unfolding next_record
  next_record_end w front =
      let r = reader_at w front [] in
      ap (λ n. (next_record_loop crc n r [] false).0) (add-one (length r.source))
      ∙ next_record_loop_end (length r.source) r (skip_padding r) [] false (
          ap (λ n. read_physical_record crc n r) (add-one (length r.source))
          ∙ physical_end (length r.source) r (omega (arith, length-append front [])))

  read_records_end :
      (calls : ℕ) (r : WalReader) → (next_record crc r).0 ≡ none → read_records crc calls r ≡ []
  unfolding read_records
  read_records_end zero r e = refl
  read_records_end (suc calls) r e = rw (e, read_records)

  read_records_step :
      (calls : ℕ) (r r' : WalReader) (x : Result Bytes)
      → next_record crc r ≡ (some x, r')
      → read_records crc (suc calls) r ≡ x ∷ read_records crc calls r'
  unfolding read_records
  read_records_step calls r r' x e = rw (e, read_records) (rw e)

  read_records-add_records :
      (ps : List Bytes) (w : WalWriter) (front : Bytes) (calls : ℕ)
      → InBlock w
      → All (λ p. p ≢ []) ps
      → length ps ≤ calls
      → read_records crc calls (reader_at w front (add_records crc w ps).0) ≡ map ok ps
  unfolding add_records
  read_records-add_records [] w front calls h g k =
      read_records_end calls (reader_at w front []) (next_record_end w front)
  read_records-add_records ([] ∷ ps) w front calls h g k = absurd (g.0 refl)
  read_records-add_records ((b ∷ bs) ∷ ps) w front zero h g k = absurd (omega arith)
  read_records-add_records ((b ∷ bs) ∷ ps) w front (suc calls) h g k =
      let out = add_record crc w (b ∷ bs) in
      let stays = add_record-InBlock w b bs h in
      read_records_step calls _ _ (ok (b ∷ bs))
        (next_record-add_record w front (add_records crc out.1 ps).0 b bs h)
      ∙ ap (λ t. ok (b ∷ bs) ∷ t)
          (read_records-add_records ps out.1 (front ++ out.0) calls stays g.1 (omega arith))

  -- A reader of the bytes that a new writer wrote for any number of payloads, none of them empty,
  -- returns these payloads in order and nothing else, in either format; in the recyclable one it
  -- expects the log number that was written. `calls` is any count of calls of the iterator that is
  -- not less than the number of records, and the checksum is any function into u32.
  pub recovery :
      (log_number : ℕ) (recyclable : Bool) (ps : List Bytes) (calls : ℕ)
      → All (λ p. p ≢ []) ps
      → length ps ≤ calls
      → read_records crc calls (
          new_reader
            (add_records crc (new_writer log_number recyclable) ps).0
            recyclable
            (log_number % 2 ^ 32))
        ≡ map ok ps
  recovery log_number recyclable ps calls h k =
      read_records-add_records ps (new_writer log_number recyclable) [] calls (omega arith) h k
