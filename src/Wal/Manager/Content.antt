-- ===== src/Wal/Manager/Content.antt =====
-- The bytes of one log (wal/manager.rs): they do not depend on its number, and records are appended one
-- by one.
use merutable.Bytes.{Bytes}
use merutable.Wal.Format.{block_size, header_size}
use merutable.Wal.Log.{
  WalWriter, new_writer, emit_physical_record, header, add_record_loop, add_record, add_records,
  read_records, new_reader,
}
use merutable.Prelude.{
  refl, ℕ, false, Bool, ◌≡◌, suc, ◌∷◌, Bool-cases, ltb, ◌-◌, inl, inr, zero, [], List, length, ◌++◌,
  ◌+◌, true, append-nil, sym, append_assoc, ap, ◌<◌, ◌∙◌, ◌^◌, All, ◌≢◌, ◌≤◌, arith, map, ok,
  length-append,
}
use merutable.Wal.Log.RoundTrip.Offsets.{InBlock}
use merutable.Wal.Log.Recovery.{add_record_loop_size, add_record-InBlock, recovery}

-- A writer of the format without log numbers, and what it is when the log has another number
abbrev writer : ℕ → ℕ → WalWriter
writer off n = record { block_offset = off; log_number = n; recyclable = false }

abbrev pub renumbered : ℕ → Bytes × WalWriter → Bytes × WalWriter
renumbered n (out, w) = (out, record w { log_number = n })

module _ (crc : Bytes → ℕ) where
  add_record_loop_number :
      (fw off n : ℕ) (p : Bytes) (f : Bool)
      → add_record_loop crc fw (writer off n) p f
        ≡ renumbered n (add_record_loop crc fw (writer off 0) p f)
  unfolding add_record_loop emit_physical_record header
  add_record_loop_number zero off n p f = refl
  add_record_loop_number (suc fw) off n [] f = refl
  add_record_loop_number (suc fw) off n (b ∷ bs) f =
      elim (Bool-cases (ltb (block_size - off) (header_size false))) [
        | inl t ↦ rw t (rw (add_record_loop_number fw _ n _ false))
        | inr u ↦ rw u (rw (add_record_loop_number fw _ n _ false))
      ]

  add_record_loop_kind :
      (fw off n : ℕ) (p : Bytes) (f : Bool)
      → (add_record_loop crc fw (writer off n) p f).1.recyclable ≡ false
  unfolding add_record_loop emit_physical_record
  add_record_loop_kind zero off n p f = refl
  add_record_loop_kind (suc fw) off n [] f = refl
  add_record_loop_kind (suc fw) off n (b ∷ bs) f =
      elim (Bool-cases (ltb (block_size - off) (header_size false))) [
        | inl t ↦ rw t (add_record_loop_kind fw _ n _ false)
        | inr u ↦ rw u (add_record_loop_kind fw _ n _ false)
      ]

  -- Appending to a log writes the same bytes whatever its number is.
  pub add_record_number :
      (off n : ℕ) (p : Bytes)
      → add_record crc (writer off n) p ≡ renumbered n (add_record crc (writer off 0) p)
  unfolding add_record
  add_record_number off n p = add_record_loop_number (length p + 1) off n p true

  -- A log with the given payloads: its bytes, and the writer behind them
  abbrev pub log_of : List Bytes → Bytes × WalWriter
  log_of ps = add_records crc (new_writer 0 false) ps

  add_records-append :
      (w : WalWriter) (ps : List Bytes) (p : Bytes)
      → add_records crc w (ps ++ p ∷ []) ≡ (
        (add_records crc w ps).0 ++ (add_record crc (add_records crc w ps).1 p).0,
        (add_record crc (add_records crc w ps).1 p).1,
      )
  unfolding add_records
  add_records-append w [] p = λ i. (append-nil (add_record crc w p).0 i, (add_record crc w p).1)
  add_records-append w (q ∷ ps) p =
      let out = add_record crc w q in
      rw (add_records-append out.1 ps p) (λ i. (
        sym
            (append_assoc out.0 (add_records crc out.1 ps).0
              (add_record crc (add_records crc out.1 ps).1 p).0)
            i,
        (add_record crc (add_records crc out.1 ps).1 p).1,
      ))

  add_records_kind :
      (off : ℕ) (ps : List Bytes)
      → (add_records crc (writer off 0) ps).1
        ≡ writer (add_records crc (writer off 0) ps).1.block_offset 0
  unfolding add_records add_record
  add_records_kind off [] = refl
  add_records_kind off (p ∷ ps) =
      let next = (add_record_loop crc (length p + 1) (writer off 0) p true).1 in
      let same : next ≡ writer next.block_offset 0 =
        let number =
          ap (λ (o : Bytes × WalWriter). o.1.log_number)
            (add_record_loop_number (length p + 1) off 0 p true) in
        let kind = add_record_loop_kind (length p + 1) off 0 p true in
        λ i. record {
          block_offset = next.block_offset;
          log_number = number i;
          recyclable = kind i;
        } in
      rw same (add_records_kind next.block_offset ps)

  -- The writer behind a log writes what any other number would have it write.
  pub add_record-log_of :
      (ps : List Bytes) (n : ℕ) (p : Bytes)
      → add_record crc (record (log_of ps).1 { log_number = n }) p
        ≡ renumbered n (add_record crc (log_of ps).1 p)
  add_record-log_of ps n p =
      let kind = add_records_kind 0 ps in
      let off = (log_of ps).1.block_offset in
      ap (λ (w : WalWriter). add_record crc (record w { log_number = n }) p) kind
      ∙ add_record_number off n p
      ∙ ap (λ (w : WalWriter). renumbered n (add_record crc w p)) (sym kind)

  pub log_of-append :
      (ps : List Bytes) (p : Bytes)
      → log_of (ps ++ p ∷ [])
        ≡ ((log_of ps).0 ++ (add_record crc (log_of ps).1 p).0, (add_record crc (log_of ps).1 p).1)
  log_of-append ps p = add_records-append (new_writer 0 false) ps p

module _ (crc : Bytes → ℕ) (crc-lt : (b : Bytes) → crc b < 2 ^ 32) where
  length-add_records :
      (w : WalWriter) (ps : List Bytes)
      → InBlock w
      → All (λ p. p ≢ []) ps
      → length ps ≤ length (add_records crc w ps).0
  unfolding add_records
  length-add_records w [] h g = omega arith
  length-add_records w ([] ∷ ps) h g = absurd (g.0 refl)
  length-add_records w ((b ∷ bs) ∷ ps) h g =
      let out = add_record crc w (b ∷ bs) in
      let rest = length-add_records out.1 ps (add_record-InBlock crc crc-lt w b bs h) g.1 in
      let size = add_record-size w b bs h in
      omega (arith, rest, size, length-append out.0 (add_records crc out.1 ps).0)
    where
      add_record-size :
          (w : WalWriter) (b : ℕ) (bs : Bytes)
          → InBlock w
          → 1 ≤ length (add_record crc w (b ∷ bs)).0
      add_record-size w b bs h =
          unfold add_record in
          let s =
            (add_record_loop_size crc crc-lt (length (b ∷ bs) + 1) w b bs true h (omega arith)).0 in
          omega (arith, s)

  -- The reader of a file gets the payloads back.
  pub read_records-log_of :
      (ps : List Bytes)
      → All (λ p. p ≢ []) ps
      → read_records crc (length (log_of crc ps).0 + 1) (new_reader (log_of crc ps).0 false 0)
        ≡ map ok ps
  read_records-log_of ps h =
      recovery crc crc-lt 0 false ps (length (log_of crc ps).0 + 1) h
        (omega (arith, length-add_records (new_writer 0 false) ps (omega arith) h))
