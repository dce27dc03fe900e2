-- ===== src/Wal/Log/RoundTrip.antt =====
-- Whole records: what `add_record` writes, over as many blocks as it takes, `next_record` returns.
pub mod Offsets
use merutable.Wal.Log.RoundTrip.Offsets.{
  InBlock, is_recyclable-record_type, pad_block_room, skip_padding-pad_block, so_far, loop_last,
  loop_more, behind-eq-reader_at, capacity, fragment_of, rest_of, length-fragment_of, fragment-rest,
  pad_block_kind,
}
use native.Mathlib.Numerals.{add-one}
use merutable.Prelude.{
  ℕ, zero, suc, ◌+◌, ◌-◌, ◌%◌, ◌^◌, ◌≤◌, ◌<◌, min, ◌≡◌, refl, sym, ap, ◌∙◌, arith, Bool, true,
  false, some, ok, [], ◌∷◌, ◌++◌, append_assoc, length, take, drop, replicate, length-append,
  take-append-drop, length-take, length-drop, length-replicate, append-nil, not, ap₂, subst,
}
use merutable.Bytes.{Bytes}
use merutable.Wal.Format.{block_size, is_recyclable, header_size}
use merutable.Wal.Log.{
  WalWriter, WalReader, header, emit_physical_record, skip_padding, record_type, pad_block,
  add_record_loop, read_physical_record, next_record_loop,
}
use merutable.Wal.Log.Physical.{reader_at, behind, read_physical-emit, length-header}

module _ (crc : Bytes → ℕ) where
  add_record_loop-nil :
      (rounds : ℕ) (w : WalWriter) (f : Bool) → add_record_loop crc rounds w [] f ≡ ([], w)
  unfolding add_record_loop
  add_record_loop-nil zero w f = refl
  add_record_loop-nil (suc rounds) w f = refl

  -- A fragment of a writer's record, and the writer behind it
  abbrev pub emitted : WalWriter → Bytes → Bool → Bool → Bytes × WalWriter
  emitted w p f l =
      emit_physical_record crc (pad_block w).1 (record_type (pad_block w).1.recyclable f l)
        (fragment_of w p)

  pub add_round_last :
      (rounds : ℕ) (w : WalWriter) (b : ℕ) (bs : Bytes) (f : Bool)
      → rest_of w (b ∷ bs) ≡ []
      → add_record_loop crc (suc rounds) w (b ∷ bs) f
        ≡ ((pad_block w).0 ++ ((emitted w (b ∷ bs) f true).0 ++ []), (emitted w (b ∷ bs) f true).1)
  unfolding add_record_loop
  add_round_last rounds w b bs f e =
      rw e (rw (add_record_loop-nil rounds (emitted w (b ∷ bs) f true).1 false))

  pub add_round_more :
      (rounds : ℕ) (w : WalWriter) (b : ℕ) (bs : Bytes) (f : Bool) (c : ℕ) (cs : Bytes)
      → rest_of w (b ∷ bs) ≡ c ∷ cs
      → add_record_loop crc (suc rounds) w (b ∷ bs) f ≡ (
        (pad_block w).0
            ++ ((emitted w (b ∷ bs) f false).0
                ++ (add_record_loop crc rounds (emitted w (b ∷ bs) f false).1 (c ∷ cs) false).0),
        (add_record_loop crc rounds (emitted w (b ∷ bs) f false).1 (c ∷ cs) false).1,
      )
  unfolding add_record_loop
  add_round_more rounds w b bs f c cs e = rw e

module _ (crc : Bytes → ℕ) (crc-lt : (b : Bytes) → crc b < 2 ^ 32) where
  -- One fragment is read back, with the padding before it.
  fragment_read :
      (rounds : ℕ) (w : WalWriter) (front p rest : Bytes) (f l : Bool)
      → InBlock w
      → read_physical_record crc
          (suc rounds)
          (reader_at w front ((pad_block w).0 ++ ((emitted crc w p f l).0 ++ rest)))
        ≡ (
          ok (some (record_type (pad_block w).1.recyclable f l, fragment_of w p)),
          reader_at
              (emitted crc w p f l).1
              (front ++ ((pad_block w).0 ++ (emitted crc w p f l).0))
              rest,
        )
  unfolding emit_physical_record
  fragment_read rounds w front p rest f l h =
      let w1 = (pad_block w).1 in
      let t = record_type w1.recyclable f l in
      let head = header crc w1 t (fragment_of w p) in
      read_physical-emit crc crc-lt rounds _ w1 t (front ++ (pad_block w).0) (fragment_of w p) rest
        (skip_padding-pad_block w front ((head ++ fragment_of w p) ++ rest) h
          ∙ ap (reader_at w1 (front ++ (pad_block w).0)) (append_assoc head (fragment_of w p) rest))
        (is_recyclable-record_type w1.recyclable f l)
        (omega (arith, length-fragment_of w p, pad_block_room w, ap header_size (pad_block_kind w)))
      ∙ ap (λ r. (ok (some (t, fragment_of w p)), r))
          (behind-eq-reader_at w1 front (pad_block w).0 head (fragment_of w p) rest
            (length-header crc crc-lt w1 t (fragment_of w p)))

  -- Rounds that are enough for a payload: one for each byte, and one for a fragment without any.
  abbrev pub needs : WalWriter → Bytes → ℕ
  needs w p = length p + (1 - capacity w)

  -- A fragment that leaves something fills its block; the rest needs a round less.
  pub fragment_fills :
      (w : WalWriter) (p : Bytes) (c : ℕ) (cs : Bytes) (f : Bool) (n : ℕ)
      → rest_of w p ≡ c ∷ cs
      → needs w p ≤ suc n
      → InBlock (emitted crc w p f false).1 × (needs (emitted crc w p f false).1 (c ∷ cs) ≤ n)
  unfolding emit_physical_record
  fragment_fills w p c cs f n e h =
      let taken = length-fragment_of w p in
      let left = length-drop (length (fragment_of w p)) p in
      let some_left = ap length e in
      let kind = pad_block_kind w in
      let full : (pad_block w).1.block_offset
            + (header_size (pad_block w).1.recyclable + length (fragment_of w p))
          ≡ block_size =
        omega (arith, taken, left, some_left, pad_block_room w, ap header_size kind) in
      ground (arith, full, taken, left, some_left, kind)

  -- From where `w` stands, the reader returns `p` and stops where the writer stopped.
  abbrev pub Reads :
      ℕ → WalWriter → Bytes → Bytes → Bytes → Bool → Bytes → Bytes × WalWriter → Type 0
  Reads fr w front rest p f assembled out =
      next_record_loop crc fr (reader_at w front (out.0 ++ rest)) assembled (not f)
      ≡ (some (ok (so_far f assembled ++ p)), reader_at out.1 (front ++ out.0) rest)

  physical_of_source :
      (w : WalWriter) (front p rest : Bytes) (f l : Bool)
      → InBlock w
      → let rd = reader_at w front ((pad_block w).0 ++ ((emitted crc w p f l).0 ++ rest)) in
        read_physical_record crc (length rd.source + 1) rd ≡ (
          ok (some (record_type (pad_block w).1.recyclable f l, fragment_of w p)),
          reader_at
              (emitted crc w p f l).1
              (front ++ ((pad_block w).0 ++ (emitted crc w p f l).0))
              rest,
        )
  physical_of_source w front p rest f l h =
      ap
        (λ n.
          read_physical_record crc n
            (reader_at w front ((pad_block w).0 ++ ((emitted crc w p f l).0 ++ rest))))
        (add-one (length (front ++ ((pad_block w).0 ++ ((emitted crc w p f l).0 ++ rest)))))
      ∙ fragment_read _ w front p rest f l h

  Reads-last :
      (fr : ℕ) (w : WalWriter) (front rest p : Bytes) (f : Bool) (assembled : Bytes)
      → InBlock w
      → rest_of w p ≡ []
      → Reads
          (suc fr)
          w
          front
          rest
          p
          f
          assembled
          ((pad_block w).0 ++ ((emitted crc w p f true).0 ++ []), (emitted crc w p f true).1)
  Reads-last fr w front rest p f assembled h e =
      let em = emitted crc w p f true in
      let whole : fragment_of w p ≡ p =
        sym (append-nil _) ∙ (ap (λ x. fragment_of w p ++ x) (sym e) ∙ fragment-rest w p) in
      rw (append-nil em.0, append_assoc (pad_block w).0 em.0 rest)
        (loop_last crc (pad_block w).1.recyclable f fr _ _ assembled (fragment_of w p)
            (physical_of_source w front p rest f true h)
          ∙ ap
              (λ x. (
                some (ok (so_far f assembled ++ x)),
                reader_at em.1 (front ++ ((pad_block w).0 ++ em.0)) rest,
              ))
              whole)

  Reads-more :
      (fr : ℕ) (w : WalWriter) (front rest p left : Bytes) (f : Bool) (assembled : Bytes)
      (more : Bytes × WalWriter)
      → InBlock w
      → rest_of w p ≡ left
      → Reads fr
          (emitted crc w p f false).1
          (front ++ ((pad_block w).0 ++ (emitted crc w p f false).0))
          rest
          left
          false
          (so_far f assembled ++ fragment_of w p)
          more
      → Reads
          (suc fr)
          w
          front
          rest
          p
          f
          assembled
          ((pad_block w).0 ++ ((emitted crc w p f false).0 ++ more.0), more.1)
  Reads-more fr w front rest p left f assembled more h e ih =
      let em = emitted crc w p f false in
      let pad = (pad_block w).0 in
      let source : (pad ++ (em.0 ++ more.0)) ++ rest ≡ pad ++ (em.0 ++ (more.0 ++ rest)) =
        simp append_assoc in
      let behind_all : (front ++ (pad ++ em.0)) ++ more.0 ≡ front ++ (pad ++ (em.0 ++ more.0)) =
        simp append_assoc in
      let all : (so_far f assembled ++ fragment_of w p) ++ left ≡ so_far f assembled ++ p =
        append_assoc (so_far f assembled) (fragment_of w p) left
        ∙ ap (λ x. so_far f assembled ++ x)
            (ap (λ x. fragment_of w p ++ x) (sym e) ∙ fragment-rest w p) in
      rw source (
        loop_more crc (pad_block w).1.recyclable f fr _ _ assembled (fragment_of w p)
          (physical_of_source w front p (more.0 ++ rest) f false h)
        ∙ ih
        ∙ ap₂ (λ x y. (some (ok x), reader_at more.1 y rest)) all behind_all)

  pub next_record_loop-add :
      (fw fr : ℕ) (w : WalWriter) (front rest : Bytes) (b : ℕ) (bs : Bytes) (f : Bool)
      (assembled : Bytes)
      → InBlock w
      → needs w (b ∷ bs) ≤ fw
      → needs w (b ∷ bs) ≤ fr
      → Reads fr w front rest (b ∷ bs) f assembled (add_record_loop crc fw w (b ∷ bs) f)
  next_record_loop-add zero fr w front rest b bs f assembled h g k = absurd (omega arith)
  next_record_loop-add (suc fw) zero w front rest b bs f assembled h g k = absurd (omega arith)
  next_record_loop-add (suc fw) (suc fr) w front rest b bs f assembled h g k =
      split (rest_of w (b ∷ bs)) refl (next_record_loop-add fw fr)
    where
      split :
          (left : Bytes)
          → rest_of w (b ∷ bs) ≡ left
          → ((w : WalWriter) (front rest : Bytes) (b : ℕ) (bs : Bytes) (f : Bool)
                (assembled : Bytes)
              → InBlock w
              → needs w (b ∷ bs) ≤ fw
              → needs w (b ∷ bs) ≤ fr
              → Reads fr w front rest (b ∷ bs) f assembled (add_record_loop crc fw w (b ∷ bs) f))
          → Reads
              (suc fr)
              w
              front
              rest
              (b ∷ bs)
              f
              assembled
              (add_record_loop crc (suc fw) w (b ∷ bs) f)
      split [] e ih =
          subst (Reads (suc fr) w front rest (b ∷ bs) f assembled)
            (sym (add_round_last crc fw w b bs f e))
            (Reads-last fr w front rest (b ∷ bs) f assembled h e)
      split (c ∷ cs) e ih =
          let (stays, enough_w) = fragment_fills w (b ∷ bs) c cs f fw e g in
          let enough_r = (fragment_fills w (b ∷ bs) c cs f fr e k).1 in
          subst (Reads (suc fr) w front rest (b ∷ bs) f assembled)
            (sym (add_round_more crc fw w b bs f c cs e))
            (Reads-more fr w front rest (b ∷ bs) (c ∷ cs) f assembled _ h e (
              ih (emitted crc w (b ∷ bs) f false).1
                (front ++ ((pad_block w).0 ++ (emitted crc w (b ∷ bs) f false).0)) rest c cs false
                (so_far f assembled ++ fragment_of w (b ∷ bs)) stays enough_w enough_r))
