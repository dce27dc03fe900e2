-- ===== src/Parquet/KvIndex/Find.antt =====
-- The search for the page of a key (parquet/kv_index.rs).
use merutable.Bytes.{Bytes, cmp_bytes}
use merutable.Parquet.KvIndex.{
  PageLocation, KvSparseIndex, slice, is_restart, shared_of, scan, read_restart_key,
  search_restarts, scan_start, find_page_with_next, encode_entry,
}
use merutable.Parquet.KvIndex.Build.{encoded, offsets, Ordered, Holds, length-encoded}
use merutable.Parquet.KvIndex.Entry.{suffix_len_at, suffix_at}
use merutable.Parquet.KvIndex.Scan.{
  AllInRange, Mark, scan-last_at_most, offsets-Mark, last_at_most, ready,
}
use merutable.Prelude.{
  ℕ, zero, suc, true, List, [], ◌∷◌, Option, none, some, ◌+◌, ◌-◌, ◌/◌, ◌^◌, ◌≤◌, ◌<◌, ◌≡◌, ◌≢◌,
  ◌∙◌, ok, length, get_elem?, ◌++◌, ltb, lt→ltb, ltb→lt, ◌==◌, All, refl, arith, lt, eq, gt,
  Ordering, Ordering-cases, ap, sym, Bool-cases, inl, inr, append_assoc, subst, ◌⊎◌,
}
use merutable.Bytes.Order.{eq_of_cmp_bytes}
use merutable.Bytes.Prefix.{cmp_bytes_trans}

get_elem?-some {ℓ} :
    {A : Type ℓ} (xs : List A) (i : ℕ) → i < length xs → (a : A) × (get_elem? xs i ≡ some a)
get_elem?-some [] i h = absurd (omega arith)
get_elem?-some (x ∷ xs) zero h = (x, refl)
get_elem?-some (x ∷ xs) (suc i) h = get_elem?-some xs i (omega arith)

-- The entries before one that is not above the target do not matter.
last_at_most-skip :
    (target key : Bytes) (loc : PageLocation) (best : Option PageLocation)
    (before after : List (Bytes × PageLocation))
    → All (λ e. cmp_bytes e.0 key ≡ lt) before
    → cmp_bytes key target ≢ gt
    → last_at_most target best (before ++ (key, loc) ∷ after)
      ≡ last_at_most target none ((key, loc) ∷ after)
unfolding last_at_most
last_at_most-skip target key loc best [] after q n = elim (Ordering-cases (cmp_bytes key target)) [
  | inl l ↦ rw (l, last_at_most) refl
  | inr (inl l) ↦ rw (l, last_at_most) refl
  | inr (inr l) ↦ absurd (n l)
]
last_at_most-skip target key loc best ((k, l) ∷ before) after q n =
    rw (below, last_at_most) (last_at_most-skip target key loc (some l) before after q.1 n)
  where
    below : cmp_bytes k target ≡ lt
    below = elim (Ordering-cases (cmp_bytes key target)) [
      | inl x ↦ cmp_bytes_trans k key target q.0 x
      | inr (inl x) ↦ ap (cmp_bytes k) (sym (eq_of_cmp_bytes key target x)) ∙ q.0
      | inr (inr x) ↦ absurd (n x)
    ]

-- An index that holds the entries from its start, with the table of their restarts
pub record Indexes (index : KvSparseIndex) (es : List (Bytes × PageLocation)) : Type 0 where
  pub held : Holds index index.restart_interval 0 [] es 0
  pub ordered : Ordered 0 [] es
  pub in_range : AllInRange es
  pub small : index.entries_size < 2 ^ 32
  pub table : index.restart_offsets ≡ offsets index.restart_interval 0 0 [] es
  pub counted : index.num_entries ≡ length es

module _ (index : KvSparseIndex) (es : List (Bytes × PageLocation)) (x : Indexes index es) where
  Marked : ℕ → Type 0
  Marked j =
      (ro : ℕ) × (get_elem? index.restart_offsets j ≡ some ro)
      × Mark index index.restart_interval es ro

  marked : (j : ℕ) → j < length index.restart_offsets → Marked j
  unfolding Marked
  marked j h =
      let (ro, e) = get_elem?-some {0} index.restart_offsets j h in
      (
        ro,
        e,
        offsets-Mark index index.restart_interval 0 [] es 0 j ro x.held x.ordered x.in_range x.small
            (subst (λ t. get_elem? t j ≡ some ro) x.table e),
      )

  shared-none : (ri n : ℕ) (prev key : Bytes) → is_restart ri n ≡ true → shared_of ri n prev key ≡ 0
  unfolding shared_of
  shared-none ri n prev key h = rw h refl

  read-Mark :
      (j ro : ℕ)
      → get_elem? index.restart_offsets j ≡ some ro
      → (m : Mark index index.restart_interval es ro) → read_restart_key index j ≡ ok m.3
  unfolding read_restart_key encoded
  read-Mark j ro e (before, n, prev, key, loc, after, split, s, h, o, r, q) =
      rw
        (
          e,
          read_restart_key,
          h.content ∙ regrouped,
          suffix_len_at h.front shared key loc rest (index.entries_offset + ro) o.0 h.starts,
          suffix_at h.front shared key loc rest (index.entries_offset + ro) o.0 h.starts,
          shared-none index.restart_interval n prev key s,
        )
        refl
    where
      shared : ℕ
      shared = shared_of index.restart_interval n prev key

      rest : Bytes
      rest = encoded index.restart_interval (n + 1) key after ++ h.back

      regrouped :
          h.front
            ++ ((encode_entry shared key loc ++ encoded index.restart_interval (n + 1) key after)
                ++ h.back)
          ≡ h.front ++ (encode_entry shared key loc ++ rest)
      regrouped = simp append_assoc

  entries_fit :
      (ri i : ℕ) (prev : Bytes) (fs : List (Bytes × PageLocation))
      → length fs ≤ length (encoded ri i prev fs)
  unfolding encoded
  entries_fit ri i prev [] = omega arith
  entries_fit ri i prev ((key, loc) ∷ fs) =
      omega (arith, entries_fit ri (i + 1) key fs, length-encoded index ri i prev key loc fs 0)

  -- A place from which the scan may start
  Low : Bytes → ℕ → Type 0
  Low target zero = Unit
  Low target (suc j) =
      (ro : ℕ) × (get_elem? index.restart_offsets j ≡ some ro)
      × ((m : Mark index index.restart_interval es ro) × (cmp_bytes m.3 target ≢ gt))

  Found : Bytes → ℕ → ℕ → ℕ → Type 0
  Found target fuel lo hi =
      (start : ℕ) × (search_restarts index target fuel lo hi ≡ ok start) × Low target start

  search_halves :
      (target key : Bytes) (fuel lo hi : ℕ)
      → lo < hi
      → read_restart_key index ((lo + hi - 1) / 2) ≡ ok key
      → search_restarts index target (suc fuel) lo hi ≡ elim (cmp_bytes key target) [
        | gt ↦ search_restarts index target fuel lo ((lo + hi - 1) / 2)
        | _ ↦ search_restarts index target fuel ((lo + hi - 1) / 2 + 1) hi
      ]
  unfolding search_restarts
  search_halves target key fuel lo hi p e = rw (lt→ltb lo hi p, search_restarts, e) refl

  search_step :
      (target key : Bytes) (fuel lo hi : ℕ)
      → lo < hi
      → read_restart_key index ((lo + hi - 1) / 2) ≡ ok key
      → Found target fuel lo ((lo + hi - 1) / 2)
      → (cmp_bytes key target ≢ gt → Found target fuel ((lo + hi - 1) / 2 + 1) hi)
      → Found target (suc fuel) lo hi
  unfolding Found
  search_step target key fuel lo hi p e (below, eb, lb) above = go (cmp_bytes key target) refl
    where
      onward :
          (cmp_bytes key target ≡ lt) ⊎ (cmp_bytes key target ≡ eq)
          → ((start : ℕ) × (search_restarts index target fuel ((lo + hi - 1) / 2 + 1) hi ≡ ok start)
              × Low target start)
          → (start : ℕ) × (search_restarts index target (suc fuel) lo hi ≡ ok start)
            × Low target start
      onward (inl q) (start, g, l) = (start, rw (search_halves target key fuel lo hi p e, q) g, l)
      onward (inr q) (start, g, l) = (start, rw (search_halves target key fuel lo hi p e, q) g, l)

      go :
          (c : Ordering)
          → cmp_bytes key target ≡ c
          → (start : ℕ) × (search_restarts index target (suc fuel) lo hi ≡ ok start)
            × Low target start
      go gt q = (below, rw (search_halves target key fuel lo hi p e, q) eb, lb)
      go lt q = onward (inl q) (above (λ z. (cc)))
      go eq q = onward (inr q) (above (λ z. (cc)))

  search_restarts-Low :
      (target : Bytes) (fuel lo hi : ℕ)
      → lo ≤ hi
      → hi ≤ length index.restart_offsets
      → hi < fuel + lo
      → Low target lo
      → Found target fuel lo hi
  unfolding search_restarts Found Low Marked
  search_restarts-Low target zero lo hi a b c l = absurd (omega arith)
  search_restarts-Low target (suc fuel) lo hi a b c l = elim (Bool-cases (ltb lo hi)) [
    | inr u ↦ (lo, rw (u, search_restarts) refl, l)
    | inl t ↦
        let p = ltb→lt lo hi t in
        let (ro, e, m) = marked ((lo + hi - 1) / 2) (omega (arith, p, b)) in
        search_step target m.3 fuel lo hi p (read-Mark ((lo + hi - 1) / 2) ro e m)
          (search_restarts-Low target fuel lo ((lo + hi - 1) / 2) (omega (arith, p))
            (omega (arith, p, b)) (omega (arith, p, c)) l)
          (λ n.
            search_restarts-Low target fuel ((lo + hi - 1) / 2 + 1) hi (omega (arith, p)) b
              (omega (arith, p, c)) (subst (Low target) (next ((lo + hi - 1) / 2)) (ro, e, (m, n))))
  ]
    where
      next : (n : ℕ) → suc n ≡ n + 1
      next n = omega arith

  scan-Low :
      (target : Bytes) (start : ℕ)
      → Low target start
      → (pos : ℕ) × (scan_start index start ≡ ok pos)
        × (scan index target (index.entries_size + 1) pos [] none
            ≡ ok (last_at_most target none es))
  unfolding Low scan_start slice
  scan-Low target zero l = (
    0,
    refl,
    scan-last_at_most index index.restart_interval target (index.entries_size + 1) 0 [] [] es 0 none
        x.held x.ordered x.in_range (ready index.restart_interval 0 [] es)
        (omega (arith, entries_fit index.restart_interval 0 [] es, x.held.ends)),
  )
  scan-Low target (suc j) (ro, e, ((before, n, prev, key, loc, after, split, s, h, o, r, q), low)) =
      (
        ro,
        rw (e, scan_start) refl,
        scan-last_at_most index index.restart_interval target (index.entries_size + 1) n prev []
              ((key, loc) ∷ after) ro none h o r
              (rw (shared-none index.restart_interval n prev key s) refl)
              (omega
                (arith, entries_fit index.restart_interval n prev ((key, loc) ∷ after), h.ends))
            ∙ ap ok (sym (rw split (last_at_most-skip target key loc none before after q low))),
      )

  -- On an index that holds these entries, the search gives the last entry whose key is not above the
  -- target, with the first row of the entry after it, and nothing if every key is above the target.
  -- It ends, and reads no byte out of bounds.
  pub find_page-last_at_most :
      (target : Bytes) → find_page_with_next index target ≡ ok (last_at_most target none es)
  unfolding find_page_with_next Found Low
  find_page-last_at_most target = elim (Bool-cases (index.num_entries == 0)) [
    | inl t ↦
        rw (t, find_page_with_next) (ap ok (sym (nothing es (omega (arith, x.counted, zero_of t)))))
    | inr u ↦
        let (start, e, l) =
          search_restarts-Low target (length index.restart_offsets + 1) 0
            (length index.restart_offsets) (omega arith) (omega arith) (omega arith) tt in
        let (pos, e', s) = scan-Low target start l in rw (u, find_page_with_next, e, e') s
  ]
    where
      zero_of : (index.num_entries == 0) ≡ true → index.num_entries ≡ 0
      zero_of t = ground arith

      nothing :
          (fs : List (Bytes × PageLocation)) → length fs ≡ 0 → last_at_most target none fs ≡ none
      nothing [] z = unfold last_at_most in refl
      nothing (f ∷ fs) z = absurd (omega (arith, z))
