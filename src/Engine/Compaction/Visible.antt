-- ===== src/Engine/Compaction/Visible.antt =====
-- What a reader of the latest state finds, before and after a compaction.
use merutable.Engine.Compaction.{
  CompactionEntry, FileEntries, dedup, is_older, is_delete, new, flatten, sort_entries,
}
use merutable.Prelude.{
  Option, List, ◌∷◌, if◌then◌else◌, none, some, ◌≡◌, ◌≤◌, [], ◌≢◌, All, Bool, Bool-cases, ◌<◌, true,
  false, refl, ◌⊎◌, inl, sym, leb, ℕ, ap, ◌&&◌, arith, ltb, ◌∙◌, inr, subst, ltb→lt,
}
use merutable.Bytes.{Bytes, eq_bytes}
use merutable.Types.Value.{Row}
use merutable.Types.Key.{user_key_bytes}
use merutable.Bytes.Order.{eq_bytes_iff}
use merutable.Types.Sequence.{SeqNum}

-- The row of an entry, where it is no delete
abbrev pub row_of : CompactionEntry → Option Row
row_of e = if is_delete e.ikey.op_type then none else some e.row

-- The row of a user key in a list of entries, newest first for each key
unfoldable pub current_row : Bytes → List CompactionEntry → Option Row
current_row u [] = none
current_row u (e ∷ es) =
    let rest = current_row u es in if eq_bytes (user_key_bytes e.ikey) u then row_of e else rest

-- Entries of one user key stand together, and their sequence numbers fall.
abbrev pub Grouped : List CompactionEntry → Type 0
Grouped [] = Unit
Grouped (e ∷ []) = Unit
Grouped (e ∷ f ∷ fs) =
    ((user_key_bytes e.ikey ≡ user_key_bytes f.ikey → f.ikey.seq ≤ e.ikey.seq)
      × (user_key_bytes e.ikey ≢ user_key_bytes f.ikey
          → All (λ g. user_key_bytes g.ikey ≢ user_key_bytes e.ikey) (f ∷ fs)))
    × Grouped (f ∷ fs)

current_row-here :
    (u : Bytes) (e : CompactionEntry) (es : List CompactionEntry)
    → user_key_bytes e.ikey ≡ u
    → current_row u (e ∷ es) ≡ row_of e
unfolding current_row
current_row-here u e es h = rw ((eq_bytes_iff (user_key_bytes e.ikey) u).1 h, current_row)

current_row-other :
    (u : Bytes) (e : CompactionEntry) (es : List CompactionEntry)
    → user_key_bytes e.ikey ≢ u
    → current_row u (e ∷ es) ≡ current_row u es
unfolding current_row
current_row-other u e es h = rw (no_test (eq_bytes (user_key_bytes e.ikey) u) refl, current_row)
  where
    no_test :
        (b : Bool)
        → eq_bytes (user_key_bytes e.ikey) u ≡ b
        → eq_bytes (user_key_bytes e.ikey) u ≡ false
    no_test true t = absurd (h ((eq_bytes_iff (user_key_bytes e.ikey) u).0 t))
    no_test false t = t

module _ (o : SeqNum) (d : Bool) where
  -- One round of the loop: an older version is kept or not, and a latest one is kept, or dropped as a
  -- delete that no reader needs.
  dedup-older :
      (last : Option Bytes) (e : CompactionEntry) (es : List CompactionEntry)
      → is_older last (user_key_bytes e.ikey) ≡ true
      → dedup last o d (e ∷ es)
        ≡ (if leb o e.ikey.seq then e ∷ dedup last o d es else dedup last o d es)
  unfolding dedup
  dedup-older last e es h = rw (h, dedup)

  dedup-latest :
      (last : Option Bytes) (e : CompactionEntry) (es : List CompactionEntry)
      → is_older last (user_key_bytes e.ikey) ≡ false
      → (dedup last o d (e ∷ es) ≡ e ∷ dedup (some (user_key_bytes e.ikey)) o d es)
        ⊎ ((dedup last o d (e ∷ es) ≡ dedup (some (user_key_bytes e.ikey)) o d es)
            × (row_of e ≡ none)
            × (e.ikey.seq < o))
  unfolding dedup
  dedup-latest last e es h =
      elim (Bool-cases (d && (is_delete e.ikey.op_type && ltb e.ikey.seq o))) [
        | inr u ↦ inl (rw (h, u, dedup))
        | inl t ↦
            let (deleted, below) =
              both (is_delete e.ikey.op_type) (ltb e.ikey.seq o) (second d _ t) in
            inr (rw (h, t, dedup), rw deleted, ltb→lt e.ikey.seq o below)
      ]
    where
      second : (a b : Bool) → a && b ≡ true → b ≡ true
      second true b p = p
      second false b p = cc

      both : (a b : Bool) → a && b ≡ true → (a ≡ true) × (b ≡ true)
      both true b p = (refl, p)
      both false b p = cc

  -- Entries of other keys come out as entries of other keys.
  others_out :
      (u : Bytes) (last : Option Bytes) (es : List CompactionEntry)
      → All (λ e. user_key_bytes e.ikey ≢ u) es
      → current_row u (dedup last o d es) ≡ none
  others_out u last [] h = unfold dedup current_row in refl
  others_out u last (e ∷ es) h = elim (Bool-cases (is_older last (user_key_bytes e.ikey))) [
    | inl t ↦ ap (current_row u) (dedup-older last e es t) ∙ elim (Bool-cases (leb o e.ikey.seq)) [
      | inl y ↦ rw y (current_row-other u e (dedup last o d es) h.0 ∙ others_out u last es h.1)
      | inr n ↦ rw n (others_out u last es h.1)
    ]
    | inr f ↦ elim (dedup-latest last e es f) [
      | inl k ↦
          ap (current_row u) k
          ∙ current_row-other u e (dedup (some (user_key_bytes e.ikey)) o d es) h.0
          ∙ others_out u (some (user_key_bytes e.ikey)) es h.1
      | inr (k, r, b) ↦ ap (current_row u) k ∙ others_out u (some (user_key_bytes e.ikey)) es h.1
    ]
  ]

  -- Behind a dropped delete no version of its key is kept.
  shadowed_out :
      (u : Bytes) (e : CompactionEntry) (es : List CompactionEntry)
      → user_key_bytes e.ikey ≡ u
      → e.ikey.seq < o
      → Grouped (e ∷ es)
      → current_row u (dedup (some u) o d es) ≡ none
  shadowed_out u e [] h b g = unfold dedup current_row in refl
  shadowed_out u e (f ∷ fs) h b g = elim (Bool-cases (eq_bytes (user_key_bytes f.ikey) u)) [
    | inl t ↦
        let same = (eq_bytes_iff (user_key_bytes f.ikey) u).0 t in
        let older : f.ikey.seq < o = omega (arith, b, g.0.0 (h ∙ sym same)) in
        ap (current_row u) (dedup-older (some u) f fs (last_is same) ∙ rw (below f.ikey.seq older))
        ∙ shadowed_out u f fs same older g.1
    | inr n ↦ others_out u (some u) (f ∷ fs) (
        subst (λ x. All (λ k. user_key_bytes k.ikey ≢ x) (f ∷ fs)) h
          (g.0.1 (λ p. clash n ((eq_bytes_iff (user_key_bytes f.ikey) u).1 (sym p ∙ h)))))
  ]
    where
      clash : {x : Bool} → x ≡ false → x ≡ true → ⊥
      clash p q = cc

      last_is : user_key_bytes f.ikey ≡ u → eq_bytes u (user_key_bytes f.ikey) ≡ true
      last_is p = (eq_bytes_iff u (user_key_bytes f.ikey)).1 (sym p)

      below : (n : ℕ) → n < o → leb o n ≡ false
      below n p = ground (arith, p)

  Grouped-tail : (e : CompactionEntry) (es : List CompactionEntry) → Grouped (e ∷ es) → Grouped es
  Grouped-tail e [] g = tt
  Grouped-tail e (f ∷ fs) g = g.1

  dedup-current :
      (u : Bytes) (last : Option Bytes) (es : List CompactionEntry)
      → is_older last u ≡ false
      → Grouped es
      → current_row u (dedup last o d es) ≡ current_row u es
  dedup-current u last [] n g = unfold dedup in refl
  dedup-current u last (e ∷ es) n g = elim (Bool-cases (is_older last uk)) [
    | inl t ↦
        let other : uk ≢ u = λ p. clash n (sym (ap (is_older last) p) ∙ t) in
        ap (current_row u) (dedup-older last e es t)
        ∙ elim (Bool-cases (leb o e.ikey.seq)) [
          | inl y ↦
              rw y
                (current_row-other u e (dedup last o d es) other ∙ dedup-current u last es n tail)
          | inr m ↦ rw m (dedup-current u last es n tail)
        ]
        ∙ sym (current_row-other u e es other)
    | inr f ↦ elim (Bool-cases (eq_bytes uk u)) [
      | inl t ↦
          let same = (eq_bytes_iff uk u).0 t in
          elim (dedup-latest last e es f) [
            | inl k ↦
                ap (current_row u) k
                ∙ current_row-here u e (dedup (some uk) o d es) same
                ∙ sym (current_row-here u e es same)
            | inr (k, r, b) ↦
                ap (current_row u) (k ∙ ap (λ x. dedup (some x) o d es) same)
                ∙ shadowed_out u e es same b g
                ∙ sym r
                ∙ sym (current_row-here u e es same)
          ]
      | inr m ↦
          let other : uk ≢ u = λ p. clash m ((eq_bytes_iff uk u).1 p) in
          elim (dedup-latest last e es f) [
            | inl k ↦
                ap (current_row u) k
                ∙ current_row-other u e (dedup (some uk) o d es) other
                ∙ dedup-current u (some uk) es m tail
                ∙ sym (current_row-other u e es other)
            | inr (k, r, b) ↦
                ap (current_row u) k
                ∙ dedup-current u (some uk) es m tail
                ∙ sym (current_row-other u e es other)
          ]
    ]
  ]
    where
      uk : Bytes
      uk = user_key_bytes e.ikey

      tail : Grouped es
      tail = Grouped-tail e es g

      clash : {x : Bool} → x ≡ false → x ≡ true → ⊥
      clash p q = cc

-- A compaction changes for no user key the row that the newest entry gives, whichever the snapshot
-- number and whether deletes are dropped: a key whose newest entry is a delete has none before and
-- after. In the merged input the entries of a key stand together and their sequence numbers fall.
pub new-current_row :
    (files : List FileEntries) (oldest_snapshot_seq : SeqNum) (drop_tombstones : Bool) (u : Bytes)
    → Grouped (sort_entries (flatten files))
    → current_row u (new files oldest_snapshot_seq drop_tombstones)
      ≡ current_row u (sort_entries (flatten files))
unfolding new
new-current_row files oldest_snapshot_seq drop_tombstones u g =
    dedup-current oldest_snapshot_seq drop_tombstones u none (sort_entries (flatten files)) refl g
