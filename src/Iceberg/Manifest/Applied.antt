-- ===== src/Iceberg/Manifest/Applied.antt =====
-- Which entries a transaction keeps (`apply` of iceberg/manifest.rs), and when it is refused.
use Prim.Native.String.{String}
use merutable.Prelude.Texts.{str_eq, str_eq_iff}
use merutable.Prelude.MeruError.{iceberg}
use merutable.Prelude.Int.{ℤ}
use merutable.Iceberg.Snapshot.{SnapshotTransaction, contains_key, contains}
use merutable.Iceberg.Manifest.{
  DvLocation, ManifestEntry, Manifest, is_deleted, location_of, stamp, carry_forward,
  check_locations, check_conflicts, apply, applied,
}
use merutable.Prelude.{
  List, Bool, Result, [], ◌≡◌, ◌||◌, if◌then◌else◌, ◌⊎◌, ok, subst, true, false, ◌∷◌, ◌>>=◌,
  Bool-cases, inl, inr, >>=-eq-ok, err, refl, All, >>-eq-ok,
}

module _ (Vector : Type 0) (txn : SnapshotTransaction Vector)
    (locations : List (String × DvLocation)) where
  abbrev is_dropped : ManifestEntry → Bool
  is_dropped e = is_deleted e || contains txn.removes e.path

  -- An entry as it is carried forward: the same, or with the coordinates of its new deletion vector
  abbrev pub SameFile : ManifestEntry → ManifestEntry → Type 0
  SameFile e k = (k ≡ e) ⊎ ((loc : DvLocation) × (k ≡ stamp e loc))

  -- What is left of a list of entries
  pub data Carried : List ManifestEntry → List ManifestEntry → Type 0 where
    nothing : Carried [] []
    dropped :
        (e : ManifestEntry) (es ks : List ManifestEntry)
        → (is_deleted e || contains txn.removes e.path) ≡ true
        → Carried es ks
        → Carried (e ∷ es) ks
    kept :
        (e k : ManifestEntry) (es ks : List ManifestEntry)
        → (is_deleted e || contains txn.removes e.path) ≡ false
        → SameFile e k
        → Carried es ks
        → Carried (e ∷ es) (k ∷ ks)

  abbrev kept_entry : ManifestEntry → Result ManifestEntry
  kept_entry e =
      if contains_key txn.dvs e.path
      then (do loc ← location_of locations e.path; ok (stamp e loc))
      else ok e

  kept_entry-SameFile : (e k : ManifestEntry) → kept_entry e ≡ ok k → SameFile e k
  kept_entry-SameFile e k h = elim (Bool-cases (contains_key txn.dvs e.path)) [
    | inr u ↦ inl (same u)
    | inl t ↦
        (let (loc, q, s) =
            >>=-eq-ok (location_of locations e.path) (λ loc. ok (stamp e loc)) (found t) in
          inr (loc, stamped loc s))
  ]
    where
      same : contains_key txn.dvs e.path ≡ false → k ≡ e
      same u = let h' = rw u at h in cc

      found :
          contains_key txn.dvs e.path ≡ true
          → (location_of locations e.path >>= λ loc. ok (stamp e loc)) ≡ ok k
      found t = rw t at h

      stamped : (loc : DvLocation) → ok (stamp e loc) ≡ ok k → k ≡ stamp e loc
      stamped loc s = cc

  pub carry_forward-Carried :
      (es ks : List ManifestEntry) → carry_forward Vector es txn locations ≡ ok ks → Carried es ks
  unfolding carry_forward
  carry_forward-Carried [] ks h = subst (Carried []) (nil_only h) nothing
    where
      nil_only : {ks : List ManifestEntry} → ok [] ≡ ok ks → [] ≡ ks
      nil_only e = cc
  carry_forward-Carried (e ∷ es) ks h = elim (Bool-cases (is_dropped e)) [
    | inl t ↦ dropped e es ks t (carry_forward-Carried es ks (skipped t))
    | inr u ↦
        (let (k, q, r) = >>=-eq-ok (kept_entry e) _ (went u) in
          let (others, q', r') = >>=-eq-ok (carry_forward Vector es txn locations) _ r in
          subst (Carried (e ∷ es)) (joined k others r')
            (kept e k es others u (kept_entry-SameFile e k q) (carry_forward-Carried es others q')))
  ]
    where
      skipped : is_dropped e ≡ true → carry_forward Vector es txn locations ≡ ok ks
      skipped t = rw t at h

      went :
          is_dropped e ≡ false
          → (kept_entry e >>= λ k.
              carry_forward Vector es txn locations >>= λ others. ok (k ∷ others))
            ≡ ok ks
      went u = rw u at h

      joined :
          (k : ManifestEntry) (others : List ManifestEntry)
          → ok (k ∷ others) ≡ ok ks
          → k ∷ others ≡ ks
      joined k others q = cc

module _ (Vector : Type 0) where
  -- Every deletion vector has a location, and none is for a file that is removed.
  abbrev pub AllLocated : List (String × Vector) → List (String × DvLocation) → Type 0
  AllLocated dvs locations = All (λ d. contains_key locations d.0 ≡ true) dvs

  abbrev pub NoConflict : List (String × Vector) → List String → Type 0
  NoConflict dvs removes = All (λ d. contains removes d.0 ≡ false) dvs

  check_locations-cases :
      (dvs : List (String × Vector)) (locations : List (String × DvLocation))
      → ((check_locations Vector dvs locations ≡ ok tt) × AllLocated dvs locations)
        ⊎ ((check_locations Vector dvs locations ≡ err iceberg) × (AllLocated dvs locations → ⊥))
  unfolding check_locations
  check_locations-cases [] locations = inl (refl, tt)
  check_locations-cases ((path, dv) ∷ dvs) locations =
      elim (Bool-cases (contains_key locations path)) [
        | inr u ↦ inr (rw u, λ a. absurd (not_both u a.0))
        | inl t ↦ elim (check_locations-cases dvs locations) [
          | inl (q, a) ↦ inl (rw t q, (t, a))
          | inr (q, n) ↦ inr (rw t q, λ a. n a.1)
        ]
      ]
    where
      not_both : {b : Bool} → b ≡ false → b ≡ true → ⊥
      not_both p q = cc

  check_conflicts-cases :
      (dvs : List (String × Vector)) (removes : List String)
      → ((check_conflicts Vector dvs removes ≡ ok tt) × NoConflict dvs removes)
        ⊎ ((check_conflicts Vector dvs removes ≡ err iceberg) × (NoConflict dvs removes → ⊥))
  unfolding check_conflicts
  check_conflicts-cases [] removes = inl (refl, tt)
  check_conflicts-cases ((path, dv) ∷ dvs) removes = elim (Bool-cases (contains removes path)) [
    | inl t ↦ inr (rw t, λ a. absurd (not_both t a.0))
    | inr u ↦ elim (check_conflicts-cases dvs removes) [
      | inl (q, a) ↦ inl (rw u q, (u, a))
      | inr (q, n) ↦ inr (rw u q, λ a. n a.1)
    ]
  ]
    where
      not_both : {b : Bool} → b ≡ true → b ≡ false → ⊥
      not_both p q = cc

  located :
      (dvs : List (String × Vector)) (locations : List (String × DvLocation)) (k : String)
      → AllLocated dvs locations
      → contains_key dvs k ≡ true
      → contains_key locations k ≡ true
  located [] locations k a h = unfold contains_key in cc
  located ((path, dv) ∷ dvs) locations k a h = elim (Bool-cases (str_eq path k)) [
    | inl t ↦ subst (λ p. contains_key locations p ≡ true) ((str_eq_iff path k).0 t) a.0
    | inr u ↦ located dvs locations k a.1 (later u)
  ]
    where
      later : str_eq path k ≡ false → contains_key dvs k ≡ true
      later u = unfold contains_key in (rw u at h)

  location_of-ok :
      (locations : List (String × DvLocation)) (k : String)
      → contains_key locations k ≡ true
      → (loc : DvLocation) × (location_of locations k ≡ ok loc)
  unfolding contains_key location_of
  location_of-ok [] k h = cc
  location_of-ok ((j, loc) ∷ m) k h = elim (Bool-cases (str_eq j k)) [
    | inl t ↦ (loc, rw t)
    | inr u ↦ (let (found, q) = location_of-ok m k (later u) in (found, rw u q))
  ]
    where
      later : str_eq j k ≡ false → contains_key m k ≡ true
      later u = rw u at h

  carry_forward-ok :
      (es : List ManifestEntry) (txn : SnapshotTransaction Vector)
      (locations : List (String × DvLocation))
      → AllLocated txn.dvs locations
      → (ks : List ManifestEntry) × (carry_forward Vector es txn locations ≡ ok ks)
  unfolding carry_forward
  carry_forward-ok [] txn locations a = ([], refl)
  carry_forward-ok (e ∷ es) txn locations a =
      let (ks, q) = carry_forward-ok es txn locations a in
      elim (Bool-cases (is_deleted e || contains txn.removes e.path)) [
        | inl t ↦ (ks, rw t q)
        | inr u ↦ elim (Bool-cases (contains_key txn.dvs e.path)) [
          | inr v ↦ (e ∷ ks, rw (u, v, q))
          | inl t ↦
              (let (loc, r) =
                  location_of-ok locations e.path (located txn.dvs locations e.path a t) in
                (stamp e loc ∷ ks, rw (u, t, r, q)))
        ]
      ]

  -- A transaction is applied exactly when each of its deletion vectors has a location and none is for a
  -- file that it removes. Otherwise `apply` returns an error, and it never panics: the location that it
  -- looks up for an entry is there.
  pub apply-checked :
      (m : Manifest) (txn : SnapshotTransaction Vector) (new_snapshot_id : ℤ)
      (locations : List (String × DvLocation)) (fresh_uuid : String) (now_ms : ℤ)
      → ((r : Manifest) × (apply Vector m txn new_snapshot_id locations fresh_uuid now_ms ≡ ok r)
          × AllLocated txn.dvs locations
          × NoConflict txn.dvs txn.removes)
        ⊎ ((apply Vector m txn new_snapshot_id locations fresh_uuid now_ms ≡ err iceberg)
            × ((AllLocated txn.dvs locations × NoConflict txn.dvs txn.removes) → ⊥))
  unfolding apply
  apply-checked m txn new_snapshot_id locations fresh_uuid now_ms =
      elim (check_locations-cases txn.dvs locations) [
        | inr (q, n) ↦ inr (rw q, λ a. n a.0)
        | inl (q, a) ↦ elim (check_conflicts-cases txn.dvs txn.removes) [
          | inr (q', n) ↦ inr (rw (q, q'), λ b. n b.1)
          | inl (q', b) ↦
              (let (ks, r) = carry_forward-ok m.entries txn locations a in
                inl
                  (applied Vector m txn new_snapshot_id fresh_uuid now_ms ks, rw (q, q', r), a, b))
        ]
      ]

  -- What `apply` returns is made from entries carried forward.
  pub apply-Carried :
      (m : Manifest) (txn : SnapshotTransaction Vector) (new_snapshot_id : ℤ)
      (locations : List (String × DvLocation)) (fresh_uuid : String) (now_ms : ℤ) (r : Manifest)
      → apply Vector m txn new_snapshot_id locations fresh_uuid now_ms ≡ ok r
      → (ks : List ManifestEntry) × Carried Vector txn locations m.entries ks
        × (r ≡ applied Vector m txn new_snapshot_id fresh_uuid now_ms ks)
  unfolding apply
  apply-Carried m txn new_snapshot_id locations fresh_uuid now_ms r h =
      let (q, h1) = >>-eq-ok (check_locations Vector txn.dvs locations) _ h in
      let (q', h2) = >>-eq-ok (check_conflicts Vector txn.dvs txn.removes) _ h1 in
      let (ks, q'', h3) = >>=-eq-ok (carry_forward Vector m.entries txn locations) _ h2 in
      (ks, carry_forward-Carried Vector txn locations m.entries ks q'', out ks h3)
    where
      out :
          (ks : List ManifestEntry)
          → ok (applied Vector m txn new_snapshot_id fresh_uuid now_ms ks) ≡ ok r
          → r ≡ applied Vector m txn new_snapshot_id fresh_uuid now_ms ks
      out ks e = cc
