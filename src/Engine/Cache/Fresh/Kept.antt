-- ===== src/Engine/Cache/Fresh/Kept.antt =====
-- Each step of a reader or a writer of the row cache (engine/cache.rs) keeps its entries fresh.
use merutable.Engine.Cache.Fresh.Steps.{
  ReadResult, Scene, updated, Step, IsFresh, write, bump, pop, read, insert, later, clear_bump,
  clear, updated-cases, updated-other,
}
use merutable.Engine.Cache.{
  CacheEntry, LruCache, RowCache, insert_if_fresh, bump_generation, pop_key, clear_entries,
}
use merutable.Bytes.{Bytes}
use merutable.Prelude.{
  ◌≡◌, ℕ, ◌+◌, List, ◌<◌, ◌⊎◌, some, ◌^◌, refl, All, ◌-◌, ◌≤◌, ◌∷◌, ◌++◌, Bool-cases, [], inl, inr,
  ap, arith, All-map, sym, ◌∙◌, subst, ◌==◌, All-append,
}

module _ (L : LruCache) where
  write-IsFresh :
      (s : Scene L.Map) (k : Bytes) (e : CacheEntry)
      → IsFresh L s
      → IsFresh L (record s {
        store = updated s.store k e;
        written = updated s.written k (s.written k + 1);
      })
  write-IsFresh s k e h = record {
    cached = λ j x p. elim (updated-cases s.written k j (s.written k + 1)) [
      | inl (q, v) ↦ inr (omega (arith, v))
      | inr (n, v) ↦ elim (h.cached j x p) [
        | inl y ↦ inl (y ∙ sym (updated-other s.store k j e n))
        | inr y ↦ inr (omega (arith, y, v))
      ]
    ];
    pending =
        All-map _ _
          (λ r p. (
            p.0,
            λ g. elim (updated-cases s.written k r.key (s.written k + 1)) [
              | inl (q, v) ↦ inr (omega (arith, v))
              | inr (n, v) ↦ elim (p.1 g) [
                | inl y ↦ inl (y ∙ sym (updated-other s.store k r.key e n))
                | inr y ↦ inr (omega (arith, y, v))
              ]
            ],
          ))
          s.readers h.pending;
  }

  bump_generation-suc :
      (c : RowCache L.Map)
      → c.generation + 1 < 2 ^ 64
      → (bump_generation L c).generation ≡ c.generation + 1
  unfolding bump_generation
  bump_generation-suc c h = omega (arith, h)

  bump_generation-inner : (c : RowCache L.Map) → (bump_generation L c).inner ≡ c.inner
  unfolding bump_generation
  bump_generation-inner c = refl

  -- No reader has the generation that comes next.
  overtaken :
      (s : Scene L.Map) (written : Bytes → ℕ)
      → IsFresh L s
      → s.cache.generation + 1 < 2 ^ 64
      → All
          (λ r.
            (r.captured_gen ≤ (bump_generation L s.cache).generation)
            × (r.captured_gen ≡ (bump_generation L s.cache).generation
                → (r.entry ≡ s.store r.key) ⊎ (0 < written r.key)))
          s.readers
  overtaken s written h b =
      All-map _ _
        (λ r p. (
          omega (arith, p.0, bump_generation-suc s.cache b),
          λ g. absurd (omega (arith, p.0, g, bump_generation-suc s.cache b)),
        ))
        s.readers h.pending

  bump-IsFresh :
      (s : Scene L.Map) (k : Bytes)
      → 0 < s.written k
      → s.cache.generation + 1 < 2 ^ 64
      → IsFresh L s
      → IsFresh L (record s {
        cache = bump_generation L s.cache;
        written = updated s.written k (s.written k - 1);
        bumped = updated s.bumped k (s.bumped k + 1);
      })
  bump-IsFresh s k w b h = record {
    cached = λ j x p.
        elim (h.cached j x (ap (λ m. L.peek m j) (sym (bump_generation-inner s.cache)) ∙ p)) [
          | inl y ↦ inl y
          | inr y ↦ elim (updated-cases s.bumped k j (s.bumped k + 1)) [
            | inl (q, v) ↦ inr (omega (arith, v))
            | inr (n, v) ↦
                inr (omega (arith, y, v, updated-other s.written k j (s.written k - 1) n))
          ]
        ];
    pending = overtaken s (updated s.written k (s.written k - 1)) h b;
  }

  pop-IsFresh :
      (s : Scene L.Map) (k : Bytes)
      → IsFresh L s
      → IsFresh L
          (record s { cache = pop_key L s.cache k; bumped = updated s.bumped k (s.bumped k - 1) })
  unfolding pop_key
  pop-IsFresh s k h = record {
    cached = λ j x p. elim (updated-cases s.bumped k j (s.bumped k - 1)) [
      | inl (q, v) ↦ absurd (gone j x q p)
      | inr (n, v) ↦ elim (h.cached j x (sym (L.peek-pop_other s.cache.inner k j n) ∙ p)) [
        | inl y ↦ inl y
        | inr y ↦ inr (omega (arith, y, v))
      ]
    ];
    pending = h.pending;
  }
    where
      gone : (j : Bytes) (x : CacheEntry) → j ≡ k → L.peek (L.pop s.cache.inner k) j ≡ some x → ⊥
      gone j x q p =
          let none_left = ap (L.peek (L.pop s.cache.inner k)) q ∙ L.peek-pop_same s.cache.inner k in
          cc

  insert_if_fresh-cases :
      (c : RowCache L.Map) (r : ReadResult)
      → ((r.captured_gen ≡ c.generation)
          × (insert_if_fresh L c r.key r.entry r.captured_gen
              ≡ record c { inner = L.put c.inner r.key r.entry }))
        ⊎ (insert_if_fresh L c r.key r.entry r.captured_gen ≡ c)
  unfolding insert_if_fresh
  insert_if_fresh-cases c r = elim (Bool-cases (c.generation == r.captured_gen)) [
    | inl t ↦ inl (ground (arith, t), rw t)
    | inr u ↦ inr (rw u)
  ]

  insert-IsFresh :
      (s : Scene L.Map) (r : ReadResult) (rs : List ReadResult)
      → s.readers ≡ r ∷ rs
      → IsFresh L s
      → IsFresh L (record s {
        cache = insert_if_fresh L s.cache r.key r.entry r.captured_gen;
        readers = rs;
      })
  insert-IsFresh s r rs e h = elim (insert_if_fresh-cases s.cache r) [
    | inr u ↦
        subst (λ c. IsFresh L (record s { cache = c; readers = rs })) (sym u)
          (record { cached = h.cached; pending = waiting.1 })
    | inl (g, t) ↦
        subst (λ c. IsFresh L (record s { cache = c; readers = rs })) (sym t)
          (record {
            cached = λ j x p. elim (L.peek-put s.cache.inner r.key j r.entry x p) [
              | inr q ↦ h.cached j x q
              | inl (jk, xe) ↦ elim (waiting.0.1 g) [
                | inl y ↦ inl (xe ∙ y ∙ ap s.store (sym jk))
                | inr y ↦ inr (omega (arith, y, ap s.written jk))
              ]
            ];
            pending = waiting.1;
          })
  ]
    where
      Waits : ReadResult → Type 0
      Waits a =
          (a.captured_gen ≤ s.cache.generation)
          × (a.captured_gen ≡ s.cache.generation
              → (a.entry ≡ s.store a.key) ⊎ (0 < s.written a.key))

      waiting : All Waits (r ∷ rs)
      waiting = subst (All Waits) e h.pending

  later-IsFresh :
      (s : Scene L.Map) (r : ReadResult) (rs : List ReadResult)
      → s.readers ≡ r ∷ rs
      → IsFresh L s
      → IsFresh L (record s { readers = rs ++ r ∷ [] })
  later-IsFresh s r rs e h = record {
    cached = h.cached;
    pending =
        let waiting = subst (All _) e h.pending in
        All-append _ rs (r ∷ []) waiting.1 (waiting.0, tt);
  }

  clear-IsFresh :
      (s : Scene L.Map) → IsFresh L s → IsFresh L (record s { cache = clear_entries L s.cache })
  unfolding clear_entries
  clear-IsFresh s h = record { cached = λ j x p. absurd (gone j x p); pending = h.pending }
    where
      gone : (j : Bytes) (x : CacheEntry) → L.peek (L.clear s.cache.inner) j ≡ some x → ⊥
      gone j x p = let none_left = L.peek-clear s.cache.inner j in cc

  pub Step-IsFresh : (s t : Scene L.Map) → Step L s t → IsFresh L s → IsFresh L t
  Step-IsFresh a b (write s k e) h = write-IsFresh s k e h
  Step-IsFresh a b (bump s k w few) h = bump-IsFresh s k w few h
  Step-IsFresh a b (pop s k w) h = pop-IsFresh s k h
  Step-IsFresh a b (read s k g le) h = record {
    cached = h.cached;
    pending = ((le, λ _. inl refl), h.pending);
  }
  Step-IsFresh a b (insert s r rs e) h = insert-IsFresh s r rs e h
  Step-IsFresh a b (later s r rs e) h = later-IsFresh s r rs e h
  Step-IsFresh a b (clear_bump s few) h = record {
    cached = λ j x p. h.cached j x (ap (λ m. L.peek m j) (sym (bump_generation-inner s.cache)) ∙ p);
    pending = overtaken s s.written h few;
  }
  Step-IsFresh a b (clear s) h = clear-IsFresh s h
