-- ===== src/Iceberg/Manifest/Rows.antt =====
-- The row ids of a manifest (iceberg/manifest.rs): each file has a range of its own.
use merutable.Prelude.Int.{ℤ, pos, negsuc, as_signed}
use merutable.Iceberg.Manifest.{ManifestEntry, add_i64, assign_rows}
use merutable.Prelude.{
  ℕ, Option, List, ◌+◌, some, ◌≤◌, ◌∷◌, ◌≡◌, All, ◌⊎◌, none, ◌<◌, [], ◌^◌, arith, All-map,
  Option-cases, inl, inr, subst, ap, sym, true, Bool, false,
}

-- A row id that is given: no id yet, or a number
abbrev pub IsBelow : ℕ → ℕ → Option ℤ → Type 0
IsBelow c n none = Unit
IsBelow c n (some (pos a)) = a + n ≤ c
IsBelow c n (some (negsuc a)) = ⊥

abbrev pub IsApart : ℕ → Option ℤ → ℕ → Option ℤ → Type 0
IsApart n (some (pos a)) k (some (pos b)) = (a + n ≤ b) ⊎ (b + k ≤ a)
IsApart n _ k _ = Unit

abbrev pub IsAssigned : Option ℤ → Type 0
IsAssigned none = ⊥
IsAssigned (some id) = Unit

-- The rows of an entry end at or before `c`; the rows of two entries do not meet.
abbrev pub Within : ℕ → ManifestEntry → Type 0
Within c e = IsBelow c e.meta.num_rows e.first_row_id

abbrev pub Apart : ManifestEntry → ManifestEntry → Type 0
Apart e f = IsApart e.meta.num_rows e.first_row_id f.meta.num_rows f.first_row_id

abbrev pub Pairwise : List ManifestEntry → Type 0
Pairwise [] = Unit
Pairwise (e ∷ es) = All (Apart e) es × Pairwise es

abbrev pub total_rows : List ManifestEntry → ℕ
total_rows [] = 0
total_rows (e ∷ es) = e.meta.num_rows + total_rows es

-- The cursor does not overflow.
pub add_i64_small : (c n : ℕ) → c + n < 2 ^ 63 → add_i64 (pos c) (as_signed 63 n) ≡ pos (c + n)
add_i64_small c n h = ground (arith, h)

assign_rows-some :
    (e : ManifestEntry) (es : List ManifestEntry) (z id : ℤ)
    → e.first_row_id ≡ some id
    → assign_rows (e ∷ es) z ≡ (e ∷ (assign_rows es z).0, (assign_rows es z).1)
unfolding assign_rows
assign_rows-some e es z id q = simp q

assign_rows-none :
    (e : ManifestEntry) (es : List ManifestEntry) (z : ℤ)
    → e.first_row_id ≡ none
    → assign_rows (e ∷ es) z ≡ (
      record e { first_row_id = some z }
          ∷ (assign_rows es (add_i64 z (as_signed 63 e.meta.num_rows))).0,
      (assign_rows es (add_i64 z (as_signed 63 e.meta.num_rows))).1,
    )
unfolding assign_rows
assign_rows-none e es z q = simp q

-- The rows of the entries that have no id yet
abbrev pub unassigned : List ManifestEntry → ℕ
unassigned [] = 0
unassigned (e ∷ es) = elim e.first_row_id [
  | none ↦ e.meta.num_rows + unassigned es
  | some id ↦ unassigned es
]

unassigned-some :
    (e : ManifestEntry) (es : List ManifestEntry) (id : ℤ)
    → e.first_row_id ≡ some id
    → unassigned (e ∷ es) ≡ unassigned es
unassigned-some e es id q = simp q

unassigned-none :
    (e : ManifestEntry) (es : List ManifestEntry)
    → e.first_row_id ≡ none
    → unassigned (e ∷ es) ≡ e.meta.num_rows + unassigned es
unassigned-none e es q = simp q

pub unassigned-le : (es : List ManifestEntry) → unassigned es ≤ total_rows es
unassigned-le [] = omega arith
unassigned-le (e ∷ es) = ground (arith, unassigned-le es)

-- How the entries are met: one with an id, one without. A property of the result holds if each adds to
-- it what it has to.
assign_rows-induction :
    (Q : ℕ → List ManifestEntry → List ManifestEntry × ℤ → Type 0)
    → ((c : ℕ) → Q c [] ([], pos c))
    → ((c : ℕ) (e : ManifestEntry) (es : List ManifestEntry) (id : ℤ)
        → e.first_row_id ≡ some id
        → Q c es (assign_rows es (pos c))
        → Q c (e ∷ es) (e ∷ (assign_rows es (pos c)).0, (assign_rows es (pos c)).1))
    → ((c : ℕ) (e : ManifestEntry) (es : List ManifestEntry)
        → e.first_row_id ≡ none
        → Q (c + e.meta.num_rows) es (assign_rows es (pos (c + e.meta.num_rows)))
        → Q c (e ∷ es) (
          record e { first_row_id = some (pos c) } ∷ (assign_rows es (pos (c + e.meta.num_rows))).0,
          (assign_rows es (pos (c + e.meta.num_rows))).1,
        ))
    → (c : ℕ) (es : List ManifestEntry) → c + total_rows es < 2 ^ 63
    → Q c es (assign_rows es (pos c))
assign_rows-induction Q base old new c [] h = unfold assign_rows in base c
assign_rows-induction Q base old new c (e ∷ es) h = elim (Option-cases e.first_row_id) [
  | inr (id, q) ↦
      subst (Q c (e ∷ es)) (sym (assign_rows-some e es (pos c) id q))
        (old c e es id q (assign_rows-induction Q base old new c es (omega (arith, h))))
  | inl q ↦
      let small = add_i64_small c e.meta.num_rows (omega (arith, h)) in
      subst (Q c (e ∷ es)) (sym (assign_rows-none e es (pos c) q)) (
        subst
          (λ z.
            Q c (e ∷ es) (
              record e { first_row_id = some (pos c) } ∷ (assign_rows es z).0,
              (assign_rows es z).1,
            ))
          (sym small)
          (new c e es q
            (assign_rows-induction Q base old new (c + e.meta.num_rows) es (omega (arith, h)))))
]

-- The cursor goes up by the rows of the entries that had no id.
pub assign_rows-cursor :
    (c : ℕ) (es : List ManifestEntry)
    → c + total_rows es < 2 ^ 63
    → (assign_rows es (pos c)).1 ≡ pos (c + unassigned es)
assign_rows-cursor c es h =
    assign_rows-induction (λ c es out. out.1 ≡ pos (c + unassigned es)) (λ c. ap pos (omega arith))
      (λ c e es id q ih. simp (q, ih)) (λ c e es q ih. simp (q, ih) (ap pos (omega arith))) c es h

-- A range at or below the cursor that does not meet the entries does not meet them afterwards.
assign_rows-Apart :
    (n a c : ℕ) (es : List ManifestEntry)
    → a + n ≤ c
    → c + total_rows es < 2 ^ 63
    → All (λ f. IsApart n (some (pos a)) f.meta.num_rows f.first_row_id) es
    → All (λ f. IsApart n (some (pos a)) f.meta.num_rows f.first_row_id) (assign_rows es (pos c)).0
assign_rows-Apart n a c es le h p =
    assign_rows-induction
      (λ c es out.
        a + n ≤ c
        → All (λ f. IsApart n (some (pos a)) f.meta.num_rows f.first_row_id) es
        → All (λ f. IsApart n (some (pos a)) f.meta.num_rows f.first_row_id) out.0)
      (λ c le p. tt) (λ c e es id q ih le p. (p.0, ih le p.1))
      (λ c e es q ih le p. (inl le, ih (omega (arith, le)) p.1)) c es h le p

-- Afterwards every entry has an id.
pub assign_rows-IsAssigned :
    (c : ℕ) (es : List ManifestEntry)
    → c + total_rows es < 2 ^ 63
    → All (λ e. IsAssigned e.first_row_id) (assign_rows es (pos c)).0
assign_rows-IsAssigned c es h =
    assign_rows-induction (λ c es out. All (λ e. IsAssigned e.first_row_id) out.0) (λ c. tt)
      (λ c e es id q ih. (subst IsAssigned (sym q) tt, ih)) (λ c e es q ih. (tt, ih)) c es h

pub Within-mono : (c d : ℕ) (e : ManifestEntry) → c ≤ d → Within c e → Within d e
Within-mono c d e h w = go e.first_row_id w
  where
    go : (o : Option ℤ) → IsBelow c e.meta.num_rows o → IsBelow d e.meta.num_rows o
    go none w = tt
    go (some (pos a)) w = omega (arith, w, h)
    go (some (negsuc a)) w = w

-- The ranges lie below the new cursor.
pub assign_rows-Within :
    (c : ℕ) (es : List ManifestEntry)
    → c + total_rows es < 2 ^ 63
    → All (Within c) es
    → All (Within (c + unassigned es)) (assign_rows es (pos c)).0
assign_rows-Within c es h w =
    assign_rows-induction (λ c es out. All (Within c) es → All (Within (c + unassigned es)) out.0)
      (λ c w. tt)
      (λ c e es id q ih w.
        let u = unassigned-some e es id q in
        (
          Within-mono c (c + unassigned (e ∷ es)) e (omega arith) w.0,
          subst (λ n. All (Within (c + n)) (assign_rows es (pos c)).0) (sym u) (ih w.1),
        ))
      (λ c e es q ih w.
        let u = unassigned-none e es q in
        let same : c + e.meta.num_rows + unassigned es ≡ c + unassigned (e ∷ es) =
          omega (arith, u) in
        (
          omega (arith, u),
          subst (λ n. All (Within n) (assign_rows es (pos (c + e.meta.num_rows))).0) same
              (ih (All-map _ _ (λ f. Within-mono c (c + e.meta.num_rows) f (omega arith)) es w.1)),
        ))
      c es h w

-- What lies below the cursor does not meet a range that begins there.
pub below_Apart :
    (c n : ℕ) (es : List ManifestEntry)
    → All (Within c) es
    → All (λ f. IsApart n (some (pos c)) f.meta.num_rows f.first_row_id) es
below_Apart c n es w = All-map _ _ (λ f p. go f.meta.num_rows f.first_row_id p) es w
  where
    go : (k : ℕ) (o : Option ℤ) → IsBelow c k o → IsApart n (some (pos c)) k o
    go k none p = tt
    go k (some (pos b)) p = inr p
    go k (some (negsuc b)) p = tt

abbrev is_some : Option ℤ → Bool
is_some none = false
is_some (some id) = true

given_Apart :
    (c n : ℕ) (o : Option ℤ) (es : List ManifestEntry)
    → c + total_rows es < 2 ^ 63
    → is_some o ≡ true
    → IsBelow c n o
    → All (λ f. IsApart n o f.meta.num_rows f.first_row_id) es
    → All (λ f. IsApart n o f.meta.num_rows f.first_row_id) (assign_rows es (pos c)).0
given_Apart c n none es h q b p = cc
given_Apart c n (some (pos a)) es h q b p = assign_rows-Apart n a c es b h p
given_Apart c n (some (negsuc a)) es h q b p = absurd b

pub assign_rows-Pairwise :
    (c : ℕ) (es : List ManifestEntry)
    → c + total_rows es < 2 ^ 63
    → All (Within c) es
    → Pairwise es
    → Pairwise (assign_rows es (pos c)).0
assign_rows-Pairwise c es h w p =
    assign_rows-induction
      (λ c es out. c + total_rows es < 2 ^ 63 → All (Within c) es → Pairwise es → Pairwise out.0)
      (λ c h w p. tt)
      (λ c e es id q ih h w p. (
        given_Apart c e.meta.num_rows e.first_row_id es (omega (arith, h)) (ap is_some q) w.0 p.0,
        ih (omega (arith, h)) w.1 p.1,
      ))
      (λ c e es q ih h w p. (
        assign_rows-Apart e.meta.num_rows c (c + e.meta.num_rows) es (omega arith)
            (omega (arith, h)) (below_Apart c e.meta.num_rows es w.1),
        ih (omega (arith, h))
            (All-map _ _ (λ f. Within-mono c (c + e.meta.num_rows) f (omega arith)) es w.1) p.1,
      ))
      c es h h w p
