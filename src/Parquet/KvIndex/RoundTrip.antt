-- ===== src/Parquet/KvIndex/RoundTrip.antt =====
-- An index that is built is accepted, and holds its entries (parquet/kv_index.rs).
use native.Mathlib.Nat.{div-eq_of_lt}
use merutable.Bytes.{Bytes, to_le_bytes}
use merutable.Bytes.Words.{length-to_le_bytes}
use merutable.Parquet.KvIndex.{
  PageLocation, KvSparseIndex, offset_bytes, header, load_restarts, validate_entries,
  expected_restarts, from_bytes, build, build_entries, u_at, iter, find_page_with_next,
}
use merutable.Parquet.KvIndex.Build.{encoded, offsets, Ordered, Holds, build_entries-ok}
use merutable.Parquet.KvIndex.Accept.{
  load_restarts-Rising, offsets-Rising, length-offsets, validate_entries-ok,
}
use merutable.Parquet.KvIndex.Ceil.{restarts_before}
use merutable.Parquet.KvIndex.Find.{find_page-last_at_most}
use merutable.Parquet.KvIndex.Scan.{AllInRange, last_at_most, iterate-Holds}
use merutable.Parquet.KvIndex.Slices.{u_at-skip, u_at-here}
use merutable.Prelude.{
  ℕ, zero, suc, false, List, [], ◌∷◌, none, ◌+◌, ◌*◌, ◌%◌, ◌^◌, ◌<◌, ◌≡◌, ◌∙◌, ok, length, ◌++◌,
  le→leb, ◌==◌, ==_iff, max, >>=-eq-ok, refl, arith, ap, sym, append_assoc, length-append,
}

module _ (n ri size restarts : ℕ) (rest : Bytes) where
  -- The header, field by field
  abbrev word : ℕ → Bytes → Bytes
  word v after = to_le_bytes 4 v ++ after

  header-append :
      header n ri size restarts ++ rest
      ≡ (1 ∷ 0 ∷ 0 ∷ 0 ∷ []) ++ word n (word ri (word size (word restarts (word 0 rest))))
  unfolding header
  header-append = simp append_assoc

  length-header : length (header n ri size restarts) ≡ 24
  unfolding header
  length-header = simp (length-append, length-to_le_bytes) refl

  version_at : u_at 1 (header n ri size restarts ++ rest) 0 ≡ ok 1
  unfolding to_le_bytes
  version_at = rw header-append (
      u_at-here 1 1 (0 ∷ 0 ∷ 0 ∷ word n (word ri (word size (word restarts (word 0 rest)))))
        (omega arith))

  past :
      (v : ℕ) (after : Bytes) (at at' : ℕ)
      → at ≡ 4 + at'
      → u_at 4 (word v after) at ≡ u_at 4 after at'
  past v after at at' e =
      u_at-skip 4 (to_le_bytes 4 v) after at at' (omega (arith, e, length-to_le_bytes 4 v))

  words_at :
      n < 2 ^ 32
      → ri < 2 ^ 32
      → size < 2 ^ 32
      → restarts < 2 ^ 32
      → (u_at 4 (header n ri size restarts ++ rest) 4 ≡ ok n)
        × (u_at 4 (header n ri size restarts ++ rest) 8 ≡ ok ri)
        × (u_at 4 (header n ri size restarts ++ rest) 12 ≡ ok size)
        × (u_at 4 (header n ri size restarts ++ rest) 16 ≡ ok restarts)
  words_at a b c d = rw header-append (
    u_at-skip 4 (1 ∷ 0 ∷ 0 ∷ 0 ∷ []) _ 4 0 refl ∙ u_at-here 4 n _ (omega (arith, a)),
    u_at-skip 4 (1 ∷ 0 ∷ 0 ∷ 0 ∷ []) _ 8 4 refl
        ∙ past n _ 4 0 refl
        ∙ u_at-here 4 ri _ (omega (arith, b)),
    u_at-skip 4 (1 ∷ 0 ∷ 0 ∷ 0 ∷ []) _ 12 8 refl
        ∙ past n _ 8 4 refl
        ∙ past ri _ 4 0 refl
        ∙ u_at-here 4 size _ (omega (arith, c)),
    u_at-skip 4 (1 ∷ 0 ∷ 0 ∷ 0 ∷ []) _ 16 12 refl
        ∙ past n _ 12 8 refl
        ∙ past ri _ 8 4 refl
        ∙ past size _ 4 0 refl
        ∙ u_at-here 4 restarts _ (omega (arith, d)),
  )

length-offset_bytes : (ros : List ℕ) → length (offset_bytes ros) ≡ 4 * length ros
unfolding offset_bytes
length-offset_bytes [] = refl
length-offset_bytes (ro ∷ ros) = omega (
  arith,
  length-append {0} (to_le_bytes 4 ro) (offset_bytes ros),
  length-to_le_bytes 4 ro,
  length-offset_bytes ros,
)

none_before : (ri : ℕ) → 0 < ri → restarts_before ri 0 ≡ 0
none_before ri p = div-eq_of_lt (omega arith)

expected_restarts-eq : (n ri : ℕ) → 0 < ri → expected_restarts n ri ≡ restarts_before ri n
unfolding expected_restarts
expected_restarts-eq zero ri p = sym (none_before ri p)
expected_restarts-eq (suc n) ri p = ground arith

-- The index of the entries `es` with restart interval `ri`
abbrev index_of : ℕ → List (Bytes × PageLocation) → KvSparseIndex
index_of ri es =
    let buf = encoded ri 0 [] es in
    let ros = offsets ri 0 0 [] es in
    record {
      bytes = header (length es) ri (length buf) (length ros) ++ (buf ++ offset_bytes ros);
      num_entries = length es;
      restart_interval = ri;
      entries_offset = 24;
      entries_size = length buf;
      restart_offsets = ros;
    }

module _ (ri : ℕ) (es : List (Bytes × PageLocation)) (ri_pos : 0 < ri) (ri_small : ri < 2 ^ 32)
    (ordered : Ordered 0 [] es) (fits : length (index_of ri es).bytes < 2 ^ 32)
    (few : length es < 2 ^ 32) where
  abbrev buf : Bytes
  buf = encoded ri 0 [] es

  abbrev ros : List ℕ
  ros = offsets ri 0 0 [] es

  size : length (index_of ri es).bytes ≡ 24 + length buf + 4 * length ros
  size = omega (
    arith,
    length-append {0} (header (length es) ri (length buf) (length ros)) (buf ++ offset_bytes ros),
    length-append {0} buf (offset_bytes ros),
    length-header (length es) ri (length buf) (length ros) [],
    length-offset_bytes ros,
  )

  held : Holds (index_of ri es) ri 0 [] es 0
  held = record {
    front = header (length es) ri (length buf) (length ros);
    back = offset_bytes ros;
    content = refl;
    starts = omega (arith, length-header (length es) ri (length buf) (length ros) []);
    ends = omega arith;
  }

  from_bytes-index_of : from_bytes (index_of ri es).bytes ≡ ok (index_of ri es)
  unfolding from_bytes
  from_bytes-index_of =
      let (a, b, c, d) =
        words_at (length es) ri (length buf) (length ros) (buf ++ offset_bytes ros) few ri_small
          (omega (arith, fits, size)) (omega (arith, fits, size)) in
      rw
        (
          le→leb 24 (length (index_of ri es).bytes) (omega (arith, size)),
          version_at (length es) ri (length buf) (length ros) (buf ++ offset_bytes ros),
          a,
          b,
          c,
          d,
          positive ri ri_pos,
          (==_iff (length (index_of ri es).bytes) (24 + length buf + 4 * length ros)).1 size,
          loaded,
          (==_iff (length ros) (expected_restarts (length es) ri)).1 counted,
          validated,
          (==_iff (length buf) (length buf)).1 refl,
        )
        refl
    where
      positive : (n : ℕ) → 0 < n → (n == 0) ≡ false
      positive n p = ground arith

      loaded : load_restarts (index_of ri es).bytes (length buf) (length ros) 0 none ≡ ok ros
      loaded =
          load_restarts-Rising (index_of ri es).bytes
            (header (length es) ri (length buf) (length ros) ++ buf) (length buf) 0 none ros
            (sym (
              append_assoc (header (length es) ri (length buf) (length ros)) buf
                (offset_bytes ros)))
            (omega (
              arith,
              length-append {0} (header (length es) ri (length buf) (length ros)) buf,
              length-header (length es) ri (length buf) (length ros) [],
            ))
            (offsets-Rising (index_of ri es) ri 0 0 (length buf) [] none es (omega arith)
              (omega (arith, fits, size)) refl)

      zero_plus : (n : ℕ) → 0 + n ≡ n
      zero_plus n = omega arith

      counted : length ros ≡ expected_restarts (length es) ri
      counted = omega (
        arith,
        length-offsets ri 0 0 [] es ri_pos (omega (arith, few)),
        none_before ri ri_pos,
        expected_restarts-eq (length es) ri ri_pos,
        ap (restarts_before ri) (zero_plus (length es)),
      )

      validated :
          validate_entries (index_of ri es).bytes ri ros (length buf) (length es) 0 0 0
          ≡ ok (length buf)
      validated =
          validate_entries-ok (index_of ri es) ri 0 0 [] es ros [] refl ri_pos (omega (arith, few))
            held ordered refl (sym (none_before ri ri_pos))

length-parts :
    (n ri size restarts : ℕ) (b : Bytes) (o : List ℕ)
    → length (header n ri size restarts ++ (b ++ offset_bytes o)) ≡ 24 + length b + 4 * length o
length-parts n ri size restarts b o = omega (
  arith,
  length-append {0} (header n ri size restarts) (b ++ offset_bytes o),
  length-append {0} b (offset_bytes o),
  length-header n ri size restarts [],
  length-offset_bytes o,
)

-- No word of the header is cut.
bytes_of_build :
    (ri : ℕ) (es : List (Bytes × PageLocation)) (b : Bytes) (o : List ℕ) (bytes : Bytes)
    → b ≡ encoded ri 0 [] es
    → o ≡ offsets ri 0 0 [] es
    → length es < 2 ^ 32
    → length bytes < 2 ^ 32
    → header (length es % 2 ^ 32) ri (length b % 2 ^ 32) (length o % 2 ^ 32)
        ++ (b ++ offset_bytes o)
      ≡ bytes
    → bytes ≡ (index_of ri es).bytes
bytes_of_build ri es b o bytes eb eo few short e =
    sym e
    ∙ rw (small (length es) few, small (length b) b_small, small (length o) o_small, ← eb, ← eo)
        refl
  where
    small : (n : ℕ) → n < 2 ^ 32 → n % 2 ^ 32 ≡ n
    small n l = omega (arith, l)

    total : length bytes ≡ 24 + length b + 4 * length o
    total = ap length (sym e) ∙ length-parts _ ri _ _ b o

    b_small : length b < 2 ^ 32
    b_small = omega (arith, total, short)

    o_small : length o < 2 ^ 32
    o_small = omega (arith, total, short)

-- What `build` returns is accepted by `from_bytes`, and the index iterates over the very entries that
-- were given. Its search returns the location of the last entry whose key is not above the target,
-- with the first row of the entry after it, and nothing if every key is above. The keys that `build`
-- accepts ascend. The fields of the locations fit their integers, and so do the number of entries, the
-- interval and the size of the result.
pub from_bytes-build :
    (es : List (Bytes × PageLocation)) (interval : ℕ) (bytes : Bytes)
    → AllInRange es
    → interval < 2 ^ 32
    → length es < 2 ^ 32
    → length bytes < 2 ^ 32
    → build es interval ≡ ok bytes
    → Ordered 0 [] es
      × ((index : KvSparseIndex) × (from_bytes bytes ≡ ok index)
          × (iter index ≡ ok es)
          × ((target : Bytes)
              → find_page_with_next index target ≡ ok (last_at_most target none es)))
unfolding build iter
from_bytes-build es interval bytes range small few short e =
    let ri : ℕ = max interval 1 in
    let ((b, o), e1, e2) = >>=-eq-ok (build_entries ri 0 [] [] [] es) _ e in
    let (eb, eo, ord) = build_entries-ok ri 0 [] [] [] es b o e1 in
    let same = bytes_of_build ri es b o bytes eb eo few short (cc) in
    let fits : length (index_of ri es).bytes < 2 ^ 32 = rw (← same) short in
    let pos : 0 < ri = omega arith in
    let ri_small : ri < 2 ^ 32 = omega arith in
    let holds = held ri es pos ri_small ord fits few in
    (
      ord,
      (
        index_of ri es,
        rw same (from_bytes-index_of ri es pos ri_small ord fits few),
        iterate-Holds (index_of ri es) ri 0 [] es 0 holds ord range,
        find_page-last_at_most (index_of ri es) es (record {
          held = holds;
          ordered = ord;
          in_range = range;
          small = omega (arith, fits, size ri es pos ri_small ord fits few);
          table = refl;
          counted = refl;
        }),
      ),
    )
