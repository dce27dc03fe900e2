-- ===== src/Iceberg/Manifest/Lineage.antt =====
-- The row ids through a transaction (`apply` of iceberg/manifest.rs).
use Prim.Native.String.{String}
use merutable.Prelude.Int.{ℤ, pos, negsuc}
use merutable.Iceberg.Snapshot.{IcebergDataFile, SnapshotTransaction}
use merutable.Iceberg.Manifest.{
  DvLocation, ManifestEntry, Manifest, stamp, assign_rows, add_entries, applied, apply,
}
use merutable.Iceberg.Manifest.Rows.{
  IsBelow, IsApart, IsAssigned, Within, Apart, Pairwise, total_rows, unassigned, unassigned-le,
  add_i64_small, assign_rows-cursor, assign_rows-IsAssigned, assign_rows-Within,
  assign_rows-Pairwise, Within-mono,
}
use merutable.Iceberg.Manifest.Applied.{SameFile, Carried, nothing, dropped, kept, apply-Carried}
use merutable.Prelude.{
  ℕ, List, ◌∷◌, ◌+◌, ◌≡◌, All, inl, ◌≤◌, ◌<◌, ◌++◌, [], ap, ◌^◌, All-append, some, none, arith, inr,
  ◌∙◌, Option, subst, All-map, sym, ok,
}

abbrev pub added_rows : List IcebergDataFile → ℕ
added_rows [] = 0
added_rows (a ∷ adds) = a.num_rows + added_rows adds

-- What `add_entries` makes of the files: ranges from the cursor on
record Fresh (c : ℕ) (adds : List IcebergDataFile) : Type 0 where
  cursor : (add_entries adds (pos c)).1 ≡ pos (c + added_rows adds)
  inside : All (Within (c + added_rows adds)) (add_entries adds (pos c)).0
  given : All (λ e. IsAssigned e.first_row_id) (add_entries adds (pos c)).0
  apart : Pairwise (add_entries adds (pos c)).0
  after :
      (n a : ℕ)
      → a + n ≤ c
      → All
          (λ f. IsApart n (some (pos a)) f.meta.num_rows f.first_row_id)
          (add_entries adds (pos c)).0

add_entries-Fresh :
    (c : ℕ) (adds : List IcebergDataFile)
    → All (λ a. a.meta.num_rows ≡ a.num_rows) adds
    → c + added_rows adds < 2 ^ 63
    → Fresh c adds
unfolding add_entries
add_entries-Fresh c [] e h = record {
  cursor = ap pos (omega arith);
  inside = tt;
  given = tt;
  apart = tt;
  after = λ n a le. tt;
}
add_entries-Fresh c (a ∷ adds) (e, es) h =
    let small = add_i64_small c a.num_rows (omega (arith, h)) in
    let rest = add_entries-Fresh (c + a.num_rows) adds es (omega (arith, h)) in
    record {
      cursor = rw small (rest.cursor ∙ ap pos (omega arith));
      inside = rw small (
        omega (arith, e),
        subst (λ n. All (Within n) (add_entries adds (pos (c + a.num_rows))).0) (omega arith)
            rest.inside,
      );
      given = rw small (tt, rest.given);
      apart = rw small (rest.after a.meta.num_rows c (omega (arith, e)), rest.apart);
      after = λ n b le. rw small (inl le, rest.after n b (omega (arith, le)));
    }

Pairwise-append :
    (es fs : List ManifestEntry)
    → Pairwise es
    → Pairwise fs
    → All (λ e. All (Apart e) fs) es
    → Pairwise (es ++ fs)
Pairwise-append [] fs p q h = q
Pairwise-append (e ∷ es) fs (p, ps) q (h, hs) =
    (All-append (Apart e) es fs p h, Pairwise-append es fs ps q hs)

-- Entries below the cursor do not meet those that are added.
added_beyond :
    (c : ℕ) (es fs : List ManifestEntry)
    → ((n a : ℕ)
        → a + n ≤ c
        → All (λ f. IsApart n (some (pos a)) f.meta.num_rows f.first_row_id) fs)
    → All (Within c) es
    → All (λ e. All (Apart e) fs) es
added_beyond c es fs h w = All-map _ _ (λ e p. go e.meta.num_rows e.first_row_id p) es w
  where
    unconstrained :
        (n : ℕ) (fs : List ManifestEntry)
        → All (λ f. IsApart n none f.meta.num_rows f.first_row_id) fs
    unconstrained n [] = tt
    unconstrained n (f ∷ fs) = (tt, unconstrained n fs)

    go :
        (n : ℕ) (o : Option ℤ)
        → IsBelow c n o
        → All (λ f. IsApart n o f.meta.num_rows f.first_row_id) fs
    go n none p = unconstrained n fs
    go n (some (pos a)) p = h n a p
    go n (some (negsuc a)) p = absurd p

-- The row ids that carrying forward does not change
SameFile-rows :
    (V : Type 0) (txn : SnapshotTransaction V) (locations : List (String × DvLocation))
    (e k : ManifestEntry)
    → SameFile V txn locations e k
    → (k.first_row_id ≡ e.first_row_id) × (k.meta.num_rows ≡ e.meta.num_rows)
unfolding stamp
SameFile-rows V txn locations e k (inl q) =
    (ap (λ (x : ManifestEntry). x.first_row_id) q, ap (λ (x : ManifestEntry). x.meta.num_rows) q)
SameFile-rows V txn locations e k (inr (loc, q)) =
    (ap (λ (x : ManifestEntry). x.first_row_id) q, ap (λ (x : ManifestEntry). x.meta.num_rows) q)

module _ (V : Type 0) (txn : SnapshotTransaction V) (locations : List (String × DvLocation)) where
  Carried-All :
      (Q : ℕ → Option ℤ → Type 0) (es ks : List ManifestEntry)
      → Carried V txn locations es ks
      → All (λ e. Q e.meta.num_rows e.first_row_id) es
      → All (λ k. Q k.meta.num_rows k.first_row_id) ks
  Carried-All Q a b nothing h = tt
  Carried-All Q a b (dropped e es ks t c) (p, h) = Carried-All Q es ks c h
  Carried-All Q a b (kept e k es ks u s c) (p, h) =
      let (id, rows) = SameFile-rows V txn locations e k s in
      (
        subst (λ o. Q k.meta.num_rows o) (sym id) (subst (λ n. Q n e.first_row_id) (sym rows) p),
        Carried-All Q es ks c h,
      )

  Carried-Pairwise :
      (es ks : List ManifestEntry) → Carried V txn locations es ks → Pairwise es → Pairwise ks
  Carried-Pairwise a b nothing p = tt
  Carried-Pairwise a b (dropped e es ks t c) p = Carried-Pairwise es ks c p.1
  Carried-Pairwise a b (kept e k es ks u s c) p =
      let (id, rows) = SameFile-rows V txn locations e k s in
      (
        subst (λ o. All (λ f. IsApart k.meta.num_rows o f.meta.num_rows f.first_row_id) ks) (sym id)
            (subst (λ n. All (λ f. IsApart n e.first_row_id f.meta.num_rows f.first_row_id) ks)
              (sym rows) (Carried-All (IsApart e.meta.num_rows e.first_row_id) es ks c p.0)),
        Carried-Pairwise es ks c p.1,
      )

  Carried-total_rows :
      (es ks : List ManifestEntry) → Carried V txn locations es ks → total_rows ks ≤ total_rows es
  Carried-total_rows a b nothing = omega arith
  Carried-total_rows a b (dropped e es ks t c) = omega (arith, Carried-total_rows es ks c)
  Carried-total_rows a b (kept e k es ks u s c) =
      omega (arith, Carried-total_rows es ks c, (SameFile-rows V txn locations e k s).1)

-- The row ids of a manifest: the next one is `c`, the rows of each entry that has an id end at or before
-- `c`, and no two such entries share a row id.
pub record IsLineage (c : ℕ) (m : Manifest) : Type 0 where
  pub next : m.next_row_id ≡ pos c
  pub inside : All (Within c) m.entries
  pub apart : Pairwise m.entries

applied-IsLineage :
    (V : Type 0) (m : Manifest) (txn : SnapshotTransaction V) (new_snapshot_id : ℤ)
    (fresh_uuid : String) (now_ms : ℤ) (ks : List ManifestEntry) (c : ℕ)
    → m.next_row_id ≡ pos c
    → All (Within c) ks
    → Pairwise ks
    → All (λ a. a.meta.num_rows ≡ a.num_rows) txn.adds
    → c + total_rows ks + added_rows txn.adds < 2 ^ 63
    → (d : ℕ) × IsLineage d (applied V m txn new_snapshot_id fresh_uuid now_ms ks)
      × (c ≤ d)
      × All
          (λ e. IsAssigned e.first_row_id)
          (applied V m txn new_snapshot_id fresh_uuid now_ms ks).entries
unfolding applied
applied-IsLineage V m txn new_snapshot_id fresh_uuid now_ms ks c n w p e h =
    let few : c + total_rows ks < 2 ^ 63 = omega (arith, h) in
    let mid : ℕ = c + unassigned ks in
    let old = assign_rows ks (pos c) in
    let cursor = assign_rows-cursor c ks few in
    let fresh = add_entries-Fresh mid txn.adds e (omega (arith, h, unassigned-le ks)) in
    let inside = assign_rows-Within c ks few w in
    (
      mid + added_rows txn.adds,
      rw (n, cursor)
          (record {
            next = fresh.cursor;
            inside =
                All-append (Within (mid + added_rows txn.adds)) old.0
                  (add_entries txn.adds (pos mid)).0
                  (All-map _ _ (λ f. Within-mono mid (mid + added_rows txn.adds) f (omega arith))
                    old.0 inside)
                  fresh.inside;
            apart =
                Pairwise-append old.0 (add_entries txn.adds (pos mid)).0
                  (assign_rows-Pairwise c ks few w p) fresh.apart
                  (added_beyond mid old.0 (add_entries txn.adds (pos mid)).0 fresh.after inside);
          }),
      omega arith,
      rw (n, cursor)
          (All-append (λ f. IsAssigned f.first_row_id) old.0 (add_entries txn.adds (pos mid)).0
            (assign_rows-IsAssigned c ks few) fresh.given),
    )

-- In a manifest whose entries with row ids have ranges of their own, all below the next row id, a
-- transaction keeps that: the new manifest has it, its next row id is not less, and each of its entries
-- has a row id, also those that had none. The row counts in the metadata of the added files are those of
-- the files, and the sum of the row counts and the next row id stays below 2^63.
pub apply-IsLineage :
    (V : Type 0) (m : Manifest) (txn : SnapshotTransaction V) (new_snapshot_id : ℤ)
    (locations : List (String × DvLocation)) (fresh_uuid : String) (now_ms : ℤ) (r : Manifest)
    (c : ℕ)
    → IsLineage c m
    → All (λ a. a.meta.num_rows ≡ a.num_rows) txn.adds
    → c + total_rows m.entries + added_rows txn.adds < 2 ^ 63
    → apply V m txn new_snapshot_id locations fresh_uuid now_ms ≡ ok r
    → (d : ℕ) × IsLineage d r × (c ≤ d) × All (λ e. IsAssigned e.first_row_id) r.entries
apply-IsLineage V m txn new_snapshot_id locations fresh_uuid now_ms r c q e h done =
    let (ks, carried, same) =
      apply-Carried V m txn new_snapshot_id locations fresh_uuid now_ms r done in
    let fewer = Carried-total_rows V txn locations m.entries ks carried in
    subst (λ t. (d : ℕ) × IsLineage d t × (c ≤ d) × All (λ e. IsAssigned e.first_row_id) t.entries)
      (sym same)
      (applied-IsLineage V m txn new_snapshot_id fresh_uuid now_ms ks c q.next
        (Carried-All V txn locations (IsBelow c) m.entries ks carried q.inside)
        (Carried-Pairwise V txn locations m.entries ks carried q.apart) e (omega (arith, h, fewer)))
