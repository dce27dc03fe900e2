-- ===== src/Parquet/KvIndex/Scan.antt =====
-- The linear scan over the entries (parquet/kv_index.rs), and where it may start.
use merutable.Bytes.{Bytes, cmp_bytes}
use merutable.Bytes.Prefix.{cmp_bytes-gt, cmp_bytes_trans}
use merutable.Parquet.KvIndex.{
  PageLocation, KvSparseIndex, slice, is_restart, shared_of, with_next, scan, iterate,
}
use merutable.Parquet.KvIndex.Build.{
  encoded, offsets, Ordered, Holds, Holds-next, decode-Holds, length-encoded, slice-shared,
  next_cursor,
}
use merutable.Parquet.KvIndex.Entry.{InRange}
use merutable.Prelude.{
  ℕ, zero, suc, Bool, true, false, List, [], ◌∷◌, Option, none, some, ◌+◌, ◌%◌, ◌^◌, ◌<◌, ◌≡◌,
  Result, ok, length, take, get_elem?, ◌++◌, leb, le→leb, All, if◌then◌else◌, refl, arith, lt, eq,
  gt, Ordering, ap, subst,
}

-- The last entry whose key is not above the target, with the first row of the one that follows it
unfoldable pub last_at_most :
    Bytes → Option PageLocation → List (Bytes × PageLocation) → Option (PageLocation × Option ℕ)
last_at_most target best [] = with_next best none
last_at_most target best ((key, loc) ∷ es) = elim (cmp_bytes key target) [
  | gt ↦ with_next best (some loc.first_row_index)
  | _ ↦ last_at_most target (some loc) es
]

abbrev pub AllInRange : List (Bytes × PageLocation) → Type 0
AllInRange [] = Unit
AllInRange ((key, loc) ∷ es) = InRange loc × AllInRange es

-- What is decoded first shares only what the key before has.
abbrev pub Ready : ℕ → ℕ → Bytes → Bytes → List (Bytes × PageLocation) → Type 0
Ready ri i prev prev' [] = Unit
Ready ri i prev prev' ((key, loc) ∷ es) =
    slice prev' 0 (shared_of ri i prev key) ≡ ok (take (shared_of ri i prev key) key)

pub ready : (ri i : ℕ) (prev : Bytes) (es : List (Bytes × PageLocation)) → Ready ri i prev prev es
ready ri i prev [] = tt
ready ri i prev ((key, loc) ∷ es) = slice-shared ri i prev key

module _ (index : KvSparseIndex) (ri : ℕ) where
  ended :
      (i : ℕ) (prev : Bytes) (cursor : ℕ)
      → Holds index ri i prev [] cursor
      → leb index.entries_size cursor ≡ true
  unfolding encoded
  ended i prev cursor h = le→leb index.entries_size cursor (omega (arith, h.ends))

  not_ended :
      (i : ℕ) (prev key : Bytes) (loc : PageLocation) (es : List (Bytes × PageLocation))
      (cursor : ℕ)
      → Holds index ri i prev ((key, loc) ∷ es) cursor
      → leb index.entries_size cursor ≡ false
  not_ended i prev key loc es cursor h =
      ground (arith, h.ends, length-encoded index ri i prev key loc es cursor)

  pub scan-last_at_most :
      (target : Bytes) (fuel i : ℕ) (prev prev' : Bytes) (es : List (Bytes × PageLocation))
      (cursor : ℕ) (best : Option PageLocation)
      → Holds index ri i prev es cursor
      → Ordered i prev es
      → AllInRange es
      → Ready ri i prev prev' es
      → length es < fuel
      → scan index target fuel cursor prev' best ≡ ok (last_at_most target best es)
  unfolding scan last_at_most
  scan-last_at_most target zero i prev prev' es cursor best h o r q f = absurd (omega arith)
  scan-last_at_most target (suc fuel) i prev prev' [] cursor best h o r q f =
      rw (ended i prev cursor h, scan) refl
  scan-last_at_most target (suc fuel) i prev prev' ((key, loc) ∷ es) cursor best h o r q f =
      rw
        (
          not_ended i prev key loc es cursor h,
          scan,
          decode-Holds index ri i prev key loc es cursor prev' h o.0 r.0 q,
        )
        (onward (cmp_bytes key target) (
          scan-last_at_most target fuel (i + 1) key key es (next_cursor ri i prev key cursor)
            (some loc) (Holds-next index ri i prev key loc es cursor h) o.2 r.1
            (ready ri (i + 1) key es) (omega arith)))
    where
      onward :
          (c : Ordering)
          → scan index target fuel (next_cursor ri i prev key cursor) key (some loc)
            ≡ ok (last_at_most target (some loc) es)
          → (elim c as (λ _. Result (Option (PageLocation × Option ℕ))) [
            | gt ↦ ok (with_next best (some loc.first_row_index))
            | _ ↦ scan index target fuel (next_cursor ri i prev key cursor) key (some loc)
          ])
            ≡ ok (elim c as (λ _. Option (PageLocation × Option ℕ)) [
              | gt ↦ with_next best (some loc.first_row_index)
              | _ ↦ last_at_most target (some loc) es
            ])
      onward gt ih = refl
      onward lt ih = ih
      onward eq ih = ih

  pub iterate-Holds :
      (i : ℕ) (prev : Bytes) (es : List (Bytes × PageLocation)) (cursor : ℕ)
      → Holds index ri i prev es cursor
      → Ordered i prev es
      → AllInRange es
      → iterate index (length es) cursor prev ≡ ok es
  unfolding iterate
  iterate-Holds i prev [] cursor h o r = refl
  iterate-Holds i prev ((key, loc) ∷ es) cursor h o r =
      rw
        (
          decode-Holds index ri i prev key loc es cursor prev h o.0 r.0
              (slice-shared ri i prev key),
          iterate-Holds (i + 1) key es (next_cursor ri i prev key cursor)
              (Holds-next index ri i prev key loc es cursor h) o.2 r.1,
        )
        refl

  -- An entry of the list that starts afresh, where it stands, and the entries before it
  abbrev pub Mark : List (Bytes × PageLocation) → ℕ → Type 0
  Mark es cursor =
      (before : List (Bytes × PageLocation)) × (n : ℕ) × (prev : Bytes) × (key : Bytes)
      × (loc : PageLocation) × (after : List (Bytes × PageLocation)) × (es
          ≡ before ++ (key, loc) ∷ after)
      × (is_restart ri n ≡ true)
      × Holds index ri n prev ((key, loc) ∷ after) cursor
      × Ordered n prev ((key, loc) ∷ after)
      × AllInRange ((key, loc) ∷ after)
      × All (λ e. cmp_bytes e.0 key ≡ lt) before

  All-weaken_below :
      (a b : Bytes) (es : List (Bytes × PageLocation))
      → cmp_bytes a b ≡ lt
      → All (λ e. cmp_bytes b e.0 ≡ lt) es
      → All (λ e. cmp_bytes a e.0 ≡ lt) es
  All-weaken_below a b [] h q = tt
  All-weaken_below a b (e ∷ es) h q = (cmp_bytes_trans a b e.0 h q.0, All-weaken_below a b es h q.1)

  Ordered-above :
      (i : ℕ) (prev : Bytes) (es : List (Bytes × PageLocation))
      → 0 < i
      → Ordered i prev es
      → All (λ e. cmp_bytes prev e.0 ≡ lt) es
  Ordered-above i prev [] p o = tt
  Ordered-above i prev ((key, loc) ∷ es) p o =
      let below = cmp_bytes-gt key prev (o.1 p) in
      (below, All-weaken_below prev key es below (Ordered-above (i + 1) key es (omega arith) o.2))

  pub All-middle :
      (P : Bytes × PageLocation → Type 0) (before : List (Bytes × PageLocation))
      (e : Bytes × PageLocation) (after : List (Bytes × PageLocation))
      → All P (before ++ e ∷ after)
      → P e
  All-middle P [] e after h = h.0
  All-middle P (b ∷ before) e after h = All-middle P before e after h.1

  Mark-cons :
      (key : Bytes) (loc : PageLocation) (es : List (Bytes × PageLocation)) (ro : ℕ)
      → All (λ e. cmp_bytes key e.0 ≡ lt) es
      → Mark es ro
      → Mark ((key, loc) ∷ es) ro
  Mark-cons key loc es ro a (before, n, prev, k, l, after, e, s, h, o, r, q) = (
    (key, loc) ∷ before,
    n,
    prev,
    k,
    l,
    after,
    ap (λ t. (key, loc) ∷ t) e,
    s,
    h,
    o,
    r,
    (All-middle _ before (k, l) after (subst (All (λ e. cmp_bytes key e.0 ≡ lt)) e a), q),
  )

  -- Each offset of the restart table is that of an entry.
  pub offsets-Mark :
      (i : ℕ) (prev : Bytes) (es : List (Bytes × PageLocation)) (cursor j ro : ℕ)
      → Holds index ri i prev es cursor
      → Ordered i prev es
      → AllInRange es
      → index.entries_size < 2 ^ 32
      → get_elem? (offsets ri i cursor prev es) j ≡ some ro
      → Mark es ro
  unfolding offsets
  offsets-Mark i prev [] cursor j ro h o r s e = cc
  offsets-Mark i prev ((key, loc) ∷ es) cursor j ro h o r s e =
      go (is_restart ri i) refl j e (λ j' e'.
        Mark-cons key loc es ro (Ordered-above (i + 1) key es (omega arith) o.2) (
          offsets-Mark (i + 1) key es (next_cursor ri i prev key cursor) j' ro
            (Holds-next index ri i prev key loc es cursor h) o.2 r.1 s e'))
    where
      fits : cursor % 2 ^ 32 ≡ cursor
      fits = omega (arith, h.ends, s)

      go :
          (restart : Bool)
          → is_restart ri i ≡ restart
          → (j : ℕ)
          → get_elem?
              (if restart
                then (cursor % 2 ^ 32)
                  ∷ offsets ri (i + 1) (next_cursor ri i prev key cursor) key es
                else offsets ri (i + 1) (next_cursor ri i prev key cursor) key es)
              j
            ≡ some ro
          → ((j' : ℕ)
              → get_elem? (offsets ri (i + 1) (next_cursor ri i prev key cursor) key es) j'
                ≡ some ro
              → Mark ((key, loc) ∷ es) ro)
          → Mark ((key, loc) ∷ es) ro
      go true q zero e' later =
          let here : cursor ≡ ro = ground (arith, e', fits) in
          (
            [],
            i,
            prev,
            key,
            loc,
            es,
            refl,
            q,
            subst (Holds index ri i prev ((key, loc) ∷ es)) here h,
            o,
            r,
            tt,
          )
      go true q (suc j') e' later = later j' e'
      go false q j' e' later = later j' e'
