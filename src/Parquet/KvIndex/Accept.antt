-- ===== src/Parquet/KvIndex/Accept.antt =====
-- Validation of an index (parquet/kv_index.rs): what `build` wrote passes every check.
use merutable.Bytes.{Bytes, to_le_bytes}
use merutable.Bytes.Words.{length-to_le_bytes}
use merutable.Parquet.KvIndex.{
  PageLocation, KvSparseIndex, is_restart, shared_of, encode_entry, offset_bytes, not_after,
  load_restarts, check_restart, validate_entries, u_at,
}
use merutable.Parquet.KvIndex.Build.{
  encoded, offsets, Ordered, Holds, Holds-next, length-encoded, next_cursor, shared_of-le,
  shared_of-le_prev,
}
use merutable.Parquet.KvIndex.Ceil.{restarts_before, restarts_before-suc, restart-index}
use merutable.Parquet.KvIndex.Entry.{shared_at, suffix_len_at}
use merutable.Parquet.KvIndex.Slices.{u_at-skip, u_at-here}
use merutable.Prelude.{
  ℕ, zero, suc, Bool, true, false, List, [], ◌∷◌, Option, none, some, ◌+◌, ◌-◌, ◌*◌, ◌/◌, ◌%◌, ◌^◌,
  ◌≤◌, ◌<◌, ◌≡◌, ◌∙◌, ok, length, drop, get_elem?, ◌++◌, le→leb, ◌==◌, ==_iff, not, ◌&&◌,
  if◌then◌else◌, refl, arith, ap, sym, Bool-cases, inl, inr, append_assoc, length-append,
  length-drop,
}

-- A table whose offsets ascend within the entries
abbrev pub Rising : ℕ → Option ℕ → List ℕ → Type 0
Rising size prev [] = Unit
Rising size prev (ro ∷ ros) =
    (ro < 2 ^ 32) × (ro ≤ size) × (not_after ro prev ≡ false) × Rising size (some ro) ros

pub load_restarts-Rising :
    (bytes front : Bytes) (size i : ℕ) (prev : Option ℕ) (ros : List ℕ)
    → bytes ≡ front ++ offset_bytes ros
    → length front ≡ 24 + size + 4 * i
    → Rising size prev ros
    → load_restarts bytes size (length ros) i prev ≡ ok ros
unfolding load_restarts offset_bytes
load_restarts-Rising bytes front size i prev [] e l r = refl
load_restarts-Rising bytes front size i prev (ro ∷ ros) e l (small, le, after, r) =
    rw
      (
        here,
        le→leb ro size le,
        after,
        load_restarts-Rising bytes (front ++ to_le_bytes 4 ro) size (i + 1) (some ro) ros
            (e ∙ sym (append_assoc front (to_le_bytes 4 ro) (offset_bytes ros)))
            (omega (arith, l, length-append {0} front (to_le_bytes 4 ro), length-to_le_bytes 4 ro))
            r,
      )
      refl
  where
    here : u_at 4 bytes (24 + size + 4 * i) ≡ ok ro
    here = rw e (
        u_at-skip 4 front (to_le_bytes 4 ro ++ offset_bytes ros) (24 + size + 4 * i) 0
          (omega (arith, l))
        ∙ u_at-here 4 ro (offset_bytes ros) small)

later_after : (p : Option ℕ) (a b : ℕ) → a ≤ b → not_after a p ≡ false → not_after b p ≡ false
later_after none a b h e = refl
later_after (some q) a b h e = ground (arith, e)

pub offsets-Rising :
    (index : KvSparseIndex) (ri i pos size : ℕ) (prev : Bytes) (p : Option ℕ)
    (es : List (Bytes × PageLocation))
    → pos + length (encoded ri i prev es) ≡ size
    → size < 2 ^ 32
    → not_after pos p ≡ false
    → Rising size p (offsets ri i pos prev es)
unfolding offsets
offsets-Rising index ri i pos size prev p [] e s a = tt
offsets-Rising index ri i pos size prev p ((key, loc) ∷ es) e s a = go (is_restart ri i) (λ q b.
    offsets-Rising index ri (i + 1) next size key q es
      (omega (arith, e, length-encoded index ri i prev key loc es 0)) s b)
  where
    next : ℕ
    next = pos + (24 + (length key - shared_of ri i prev key))

    fits : pos % 2 ^ 32 ≡ pos
    fits = omega (arith, e, s)

    go :
        (restart : Bool)
        → ((q : Option ℕ)
            → not_after next q ≡ false
            → Rising size q (offsets ri (i + 1) next key es))
        → Rising size p (
            if restart
            then (pos % 2 ^ 32) ∷ offsets ri (i + 1) next key es
            else offsets ri (i + 1) next key es)
    go true rest =
        rw fits (omega (arith, e, s), omega (arith, e), a, rest (some pos) (ground arith))
    go false rest = rest p (later_after p pos next (omega arith) a)

pub length-offsets :
    (ri i pos : ℕ) (prev : Bytes) (es : List (Bytes × PageLocation))
    → 0 < ri
    → i + length es < 2 ^ 32
    → restarts_before ri i + length (offsets ri i pos prev es) ≡ restarts_before ri (i + length es)
unfolding offsets
length-offsets ri i pos prev [] p h = none_more
  where
    none_more : restarts_before ri i + 0 ≡ restarts_before ri (i + 0)
    none_more = rw (i_zero i) (omega arith)
      where
        i_zero : (n : ℕ) → n + 0 ≡ n
        i_zero n = omega arith
length-offsets ri i pos prev ((key, loc) ∷ es) p h = rw (shift i (length es)) (
    go (is_restart ri i) (offsets ri (i + 1) next key es)
      (restarts_before-suc ri i p (omega (arith, h)))
      (length-offsets ri (i + 1) next key es p (omega (arith, h))))
  where
    next : ℕ
    next = pos + (24 + (length key - shared_of ri i prev key))

    shift : (a b : ℕ) → a + suc b ≡ a + 1 + b
    shift a b = omega arith

    go :
        (restart : Bool) (rest : List ℕ)
        → restarts_before ri (i + 1) ≡ restarts_before ri i + (if restart then 1 else 0)
        → restarts_before ri (i + 1) + length rest ≡ restarts_before ri (i + 1 + length es)
        → restarts_before ri i + length (if restart then (pos % 2 ^ 32) ∷ rest else rest)
          ≡ restarts_before ri (i + 1 + length es)
    go true rest a b = omega (arith, a, b)
    go false rest a b = omega (arith, a, b)

get_elem?-at :
    (done rest : List ℕ) (n x : ℕ) → length done ≡ n → get_elem? (done ++ x ∷ rest) n ≡ some x
get_elem?-at [] rest zero x e = refl
get_elem?-at [] rest (suc n) x e = absurd (omega (arith, e))
get_elem?-at (d ∷ done) rest zero x e = absurd (omega (arith, e))
get_elem?-at (d ∷ done) rest (suc n) x e = get_elem?-at done rest n x (omega (arith, e))

check_restart-ok :
    (ri i cursor : ℕ) (table done rest : List ℕ)
    → 0 < ri
    → i < 2 ^ 32
    → table ≡ done ++ (if is_restart ri i then (cursor % 2 ^ 32) ∷ rest else rest)
    → length done ≡ restarts_before ri i
    → check_restart ri table i cursor ≡ ok tt
unfolding check_restart
check_restart-ok ri i cursor table done rest p h e l = elim (Bool-cases (is_restart ri i)) [
  | inr u ↦ rw u refl
  | inl t ↦
      rw
        (
          t,
          rw t at e,
          get_elem?-at done rest (i % 2 ^ 32 / ri) (cursor % 2 ^ 32) (l ∙ restart-index ri i p h t),
          (==_iff (cursor % 2 ^ 32) (cursor % 2 ^ 32)).1 refl,
        )
        refl
]

shared_of-restart :
    (ri i : ℕ) (prev key : Bytes)
    → not (is_restart ri i && not (shared_of ri i prev key == 0)) ≡ true
unfolding shared_of
shared_of-restart ri i prev key = ground arith

pub validate_entries-ok :
    (index : KvSparseIndex) (ri i cursor : ℕ) (prev : Bytes) (es : List (Bytes × PageLocation))
    (table done : List ℕ)
    → index.entries_offset ≡ 24
    → 0 < ri
    → i + length es < 2 ^ 32
    → Holds index ri i prev es cursor
    → Ordered i prev es
    → table ≡ done ++ offsets ri i cursor prev es
    → length done ≡ restarts_before ri i
    → validate_entries index.bytes ri table index.entries_size (length es) i cursor (length prev)
      ≡ ok index.entries_size
unfolding validate_entries offsets
validate_entries-ok index ri i cursor prev [] table done off p h x o e l =
    unfold encoded in ap ok (omega (arith, x.ends))
validate_entries-ok index ri i cursor prev ((key, loc) ∷ es) table done off p h x o e l =
    rw
      (
        le→leb (cursor + 4) index.entries_size (omega (arith, x.ends, size)),
        shared_here,
        suffix_here,
        restart_whole,
        le→leb shared (length prev) (shared_of-le_prev ri i prev key),
        next_here,
        le→leb (next_cursor ri i prev key cursor) index.entries_size (omega (arith, x.ends, size)),
        check_restart-ok ri i cursor table done
            (offsets ri (i + 1) (next_cursor ri i prev key cursor) key es) p (omega (arith, h))
            (unfold offsets in e) l,
        length_here,
      )
      (validate_entries-ok index ri (i + 1) (next_cursor ri i prev key cursor) key es table
        (if is_restart ri i then done ++ (cursor % 2 ^ 32) ∷ [] else done) off p (omega (arith, h))
        (Holds-next index ri i prev key loc es cursor x) o.2
        (e ∙ moved (is_restart ri i) (offsets ri (i + 1) (next_cursor ri i prev key cursor) key es))
        (counted (is_restart ri i) (restarts_before-suc ri i p (omega (arith, h)))))
  where
    shared : ℕ
    shared = shared_of ri i prev key

    size :
        length (encoded ri i prev ((key, loc) ∷ es))
        ≡ 24 + (length key - shared) + length (encoded ri (i + 1) key es)
    size = length-encoded index ri i prev key loc es cursor

    entry_here :
        index.bytes
        ≡ x.front ++ (encode_entry shared key loc ++ (encoded ri (i + 1) key es ++ x.back))
    entry_here =
        unfold encoded in
        (x.content
          ∙ ap (λ t. x.front ++ t)
              (append_assoc (encode_entry shared key loc) (encoded ri (i + 1) key es) x.back))

    start : 24 + cursor ≡ length x.front
    start = omega (arith, x.starts, off)

    shared_here : u_at 2 index.bytes (24 + cursor) ≡ ok shared
    shared_here = rw entry_here (
        shared_at x.front shared key loc (encoded ri (i + 1) key es ++ x.back) (24 + cursor) o.0
          start (shared_of-le ri i prev key))

    suffix_here : u_at 2 index.bytes (24 + cursor + 2) ≡ ok (length (drop shared key))
    suffix_here = rw entry_here (
        suffix_len_at x.front shared key loc (encoded ri (i + 1) key es ++ x.back) (24 + cursor) o.0
          start)

    restart_whole : not (is_restart ri i && not (shared == 0)) ≡ true
    restart_whole = shared_of-restart ri i prev key

    next_here : cursor + (4 + length (drop shared key) + 20) ≡ next_cursor ri i prev key cursor
    next_here = omega (arith, length-drop {0} shared key)

    length_here : shared + length (drop shared key) ≡ length key
    length_here = omega (arith, length-drop {0} shared key, shared_of-le ri i prev key)

    moved :
        (r : Bool) (rest : List ℕ)
        → done ++ (if r then (cursor % 2 ^ 32) ∷ rest else rest)
          ≡ (if r then done ++ (cursor % 2 ^ 32) ∷ [] else done) ++ rest
    moved true rest = sym (append_assoc done ((cursor % 2 ^ 32) ∷ []) rest)
    moved false rest = refl

    counted :
        (r : Bool)
        → restarts_before ri (i + 1) ≡ restarts_before ri i + (if r then 1 else 0)
        → length (if r then done ++ (cursor % 2 ^ 32) ∷ [] else done) ≡ restarts_before ri (i + 1)
    counted true q = omega (arith, q, l, length-append {0} done ((cursor % 2 ^ 32) ∷ []))
    counted false q = omega (arith, q, l)
