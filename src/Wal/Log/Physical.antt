-- ===== src/Wal/Log/Physical.antt =====
-- One physical record: what `emit_physical_record` wrote at the reader's place is read back.
use merutable.Prelude.{
  ℕ, suc, ◌+◌, ◌%◌, ◌^◌, ◌≤◌, ◌<◌, ◌≡◌, refl, sym, ◌∙◌, arith, Bool, true, false, some, ok, [], ◌∷◌,
  ◌++◌, append_assoc, length, take, drop, length-append, take-append_length, drop-append_length,
  ltb, ◌==◌, if◌then◌else◌,
}
use merutable.Bytes.{Bytes, to_le_bytes, from_le_bytes}
use merutable.Bytes.Words.{from_le_bytes-to_le_bytes}
use merutable.Wal.Format.{
  full, first, middle, last, recyclable_full, recyclable_first, recyclable_middle, recyclable_last,
  block_size, RecordType, type_byte, from_byte, is_recyclable, header_size, from_byte-type_byte,
}
use merutable.Wal.Log.{
  classify_head, written, WalWriter, WalReader, header, read_at, skip_padding, check_type,
  read_payload, read_typed, read_physical_record,
}

-- A slice of the source, past a front of known length.
pub read_at-append :
    (front x rest : Bytes) (offset n : ℕ)
    → offset ≡ length front
    → n ≡ length x
    → read_at (front ++ (x ++ rest)) offset n ≡ x
read_at-append front x rest offset n h g =
    rw (drop-append_length offset front (x ++ rest) h) (take-append_length n x rest g)

-- The reader that has read `front` of what `w` wrote, where `tail` is left.
abbrev pub reader_at : WalWriter → Bytes → Bytes → WalReader
reader_at w front tail = record {
  source = front ++ tail;
  file_offset = length front;
  block_offset = w.block_offset % block_size;
  recyclable = w.recyclable;
  expected_log_number = w.log_number % 2 ^ 32;
  eof = false;
}

type_byte-pos : (t : RecordType) → 0 < type_byte t
type_byte-pos full = omega arith
type_byte-pos first = omega arith
type_byte-pos middle = omega arith
type_byte-pos last = omega arith
type_byte-pos recyclable_full = omega arith
type_byte-pos recyclable_first = omega arith
type_byte-pos recyclable_middle = omega arith
type_byte-pos recyclable_last = omega arith

-- The reader behind a record that was read whole.
abbrev pub behind : WalWriter → Bytes → Bytes → Bytes → Bytes → WalReader
behind w front head p rest = record (reader_at w front (head ++ (p ++ rest))) {
  file_offset = length front + (header_size w.recyclable + length p);
  block_offset = (w.block_offset % block_size + (header_size w.recyclable + length p)) % block_size;
}

module _ (crc : Bytes → ℕ) (crc-lt : (b : Bytes) → crc b < 2 ^ 32) where
  pub length-header :
      (w : WalWriter) (t : RecordType) (p : Bytes)
      → length (header crc w t p) ≡ header_size w.recyclable
  unfolding header
  length-header w t p = log_field w.recyclable
    where
      log_field :
          (b : Bool)
          → length (
              to_le_bytes 4 (crc (type_byte t ∷ p))
              ++ (to_le_bytes 2 (length p % 2 ^ 16)
                  ++ (type_byte t ∷ (if b then to_le_bytes 4 (w.log_number % 2 ^ 32) else []))))
            ≡ header_size b
      log_field true = unfold to_le_bytes in refl
      log_field false = unfold to_le_bytes in refl

  -- The fields that the reader takes out of a header.
  pub header_fields :
      (w : WalWriter) (t : RecordType) (p : Bytes)
      → length p < 2 ^ 16
      → (from_le_bytes (take 4 (header crc w t p)) ≡ crc (type_byte t ∷ p))
        × (from_le_bytes (take 2 (drop 4 (header crc w t p))) ≡ length p)
        × (from_le_bytes (take 1 (drop 6 (header crc w t p))) ≡ type_byte t)
        × (w.recyclable ≡ true
            → from_le_bytes (take 4 (drop 7 (header crc w t p))) ≡ w.log_number % 2 ^ 32)
  unfolding header to_le_bytes
  header_fields w t p h = (
    from_le_bytes-to_le_bytes 4 (crc (type_byte t ∷ p)) (crc-lt _),
    from_le_bytes-to_le_bytes 2 (length p % 2 ^ 16) (omega arith) ∙ omega arith,
    one_byte (type_byte t),
    λ e. log_field w.recyclable e,
  )
    where
      one_byte : (b : ℕ) → from_le_bytes (b ∷ []) ≡ b
      one_byte b = unfold from_le_bytes in omega arith

      log_field :
          (r : Bool)
          → r ≡ true
          → from_le_bytes (
              take 4 (
                drop 7 (
                  to_le_bytes 4 (crc (type_byte t ∷ p))
                  ++ (to_le_bytes 2 (length p % 2 ^ 16)
                      ++ (type_byte t
                          ∷ (if r then to_le_bytes 4 (w.log_number % 2 ^ 32) else []))))))
            ≡ w.log_number % 2 ^ 32
      log_field true e = from_le_bytes-to_le_bytes 4 (w.log_number % 2 ^ 32) (omega arith)
      log_field false e = absurd (cc e)

  read_payload-append :
      (w : WalWriter) (t : RecordType) (front head p rest : Bytes)
      → length head ≡ header_size w.recyclable
      → read_payload crc
          (reader_at w front (head ++ (p ++ rest)))
          t
          (crc (type_byte t ∷ p))
          (length p)
        ≡ (ok (some (t, p)), behind w front head p rest)
  unfolding read_payload
  read_payload-append w t front head p rest h =
      let found : read_at (front ++ (head ++ (p ++ rest))) (length front + header_size w.recyclable)
            (length p)
          ≡ p =
        rw (← append_assoc front head (p ++ rest)) (
          read_at-append (front ++ head) p rest _ _ (omega (arith, h, length-append front head))
            refl) in
      rw found (rw (ltb_self (length p), beq_self (crc (type_byte t ∷ p))))
    where
      ltb_self : (n : ℕ) → ltb n n ≡ false
      ltb_self n = ground arith

      beq_self : (n : ℕ) → (n == n) ≡ true
      beq_self n = ground arith

  check_type-header :
      (w : WalWriter) (t : RecordType) (front p tail : Bytes)
      → length p < 2 ^ 16
      → is_recyclable t ≡ w.recyclable
      → check_type (reader_at w front tail) t (header crc w t p) ≡ ok true
  unfolding check_type
  check_type-header w t front p tail h k = ground (arith, (header_fields w t p h).3)

  classify_header :
      (w : WalWriter) (t : RecordType) (p : Bytes)
      → length p < 2 ^ 16
      → classify_head (header_size w.recyclable) (header crc w t p) ≡ written
  unfolding classify_head
  classify_header w t p h =
      ground (arith, length-header w t p, (header_fields w t p h).2, type_byte-pos t)

  read_typed-header :
      (w : WalWriter) (t : RecordType) (front p rest : Bytes)
      → length p < 2 ^ 16
      → is_recyclable t ≡ w.recyclable
      → read_typed crc
          (reader_at w front (header crc w t p ++ (p ++ rest)))
          (header crc w t p)
          (from_byte (from_le_bytes (take 1 (drop 6 (header crc w t p)))))
        ≡ (ok (some (t, p)), behind w front (header crc w t p) p rest)
  unfolding read_typed
  read_typed-header w t front p rest h k =
      let (stored, len, kind, log) = header_fields w t p h in
      rw (kind, from_byte-type_byte t)
        (rw (check_type-header w t front p (header crc w t p ++ (p ++ rest)) h k, stored, len)
          (read_payload-append w t front (header crc w t p) p rest (length-header w t p)))

  -- The round that meets a record
  physical_round :
      (rounds : ℕ) (r r' : WalReader) (head : Bytes)
      → skip_padding r ≡ r'
      → read_at r'.source r'.file_offset (header_size r'.recyclable) ≡ head
      → classify_head (header_size r'.recyclable) head ≡ written
      → read_physical_record crc (suc rounds) r
        ≡ read_typed crc r' head (from_byte (from_le_bytes (take 1 (drop 6 head))))
  unfolding read_physical_record
  physical_round rounds r r' head e f g = rw (e, f, g, read_physical_record) (rw (e, f))

  -- `read_physical_record` returns the record that `emit_physical_record` wrote at the place where
  -- the reader stands after the padding, if the block has room for it.
  pub read_physical-emit :
      (rounds : ℕ) (r : WalReader) (w : WalWriter) (t : RecordType) (front p rest : Bytes)
      → skip_padding r ≡ reader_at w front (header crc w t p ++ (p ++ rest))
      → is_recyclable t ≡ w.recyclable
      → w.block_offset + (header_size w.recyclable + length p) ≤ block_size
      → read_physical_record crc (suc rounds) r
        ≡ (ok (some (t, p)), behind w front (header crc w t p) p rest)
  read_physical-emit rounds r w t front p rest e k room =
      let small : length p < 2 ^ 16 = ground arith in
      physical_round rounds r (reader_at w front (header crc w t p ++ (p ++ rest)))
        (header crc w t p) e
        (read_at-append front (header crc w t p) (p ++ rest) (length front)
          (header_size w.recyclable) refl (sym (length-header w t p)))
        (classify_header w t p small)
      ∙ read_typed-header w t front p rest small k
