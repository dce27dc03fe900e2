-- ===== src/Engine/WritePath/Effects.antt =====
-- What a batch of engine/write_path.rs changes of the engine: the cache, the counters, and the memtable
-- and the log, which are rotated together.
pub mod Steps
use merutable.Bytes.{Bytes, eq_bytes}
use merutable.Bytes.Order.{eq_bytes_iff}
use merutable.Engine.Cache.{LruCache, RowCache, invalidate, pop_key, bump_generation}
use merutable.Engine.WritePath.{
  Engine, EncodedOp, fill_batch, write_locked, invalidate_all, forget_ops, rotate_full,
}
use merutable.Memtable.Manager
use merutable.Memtable.Manager.{MemtableManager}
use merutable.Memtable.SkipMap.{SkipMap}
use merutable.Memtable.Skiplist.{EntryValue}
use merutable.Memtable.Table
use merutable.Memtable.Table.{Memtable}
use merutable.Types.Sequence.{SeqNum, allocate_n, set_at_least, seqnum_max, next}
use merutable.Wal.Batch
use merutable.Wal.Batch.{WriteBatch}
use merutable.Wal.Manager.{WalManager, append as wal_append, rotate as wal_rotate}
use merutable.Prelude.{
  List, ℕ, inr, Bool, All, ◌≡◌, ◌∷◌, Option, ok, ◌⊎◌, if◌then◌else◌, none, arith, [], some, inl,
  ◌+◌, ◌%◌, ◌&&◌, ◌^◌, ◌∙◌, length, ap, Bool-cases, max, ◌-◌, refl, subst, sym,
}

-- A key of one of the operations
abbrev pub Named : Bytes → List EncodedOp → Type 0
Named k [] = ⊥
Named k (op ∷ ops) = (k ≡ op.user_key_bytes) ⊎ Named k ops

module _ (crc : Bytes → ℕ) (S : SkipMap EntryValue) (L : LruCache) where
  -- A cache without the keys of the operations, and with the entry it had for each other key; its
  -- generation has moved once for each operation.
  abbrev pub Forgot : RowCache L.Map → List EncodedOp → RowCache L.Map → Type 0
  Forgot c ops d =
      All (λ op. L.peek d.inner op.user_key_bytes ≡ none) ops
      × ((k : Bytes) → Named k ops ⊎ (L.peek d.inner k ≡ L.peek c.inner k))
      × (d.generation % 2 ^ 64 ≡ (c.generation + length ops) % 2 ^ 64)

  -- The same where there may be no cache
  abbrev pub Forgets : Option (RowCache L.Map) → List EncodedOp → Option (RowCache L.Map) → Type 0
  Forgets none ops none = Unit
  Forgets none ops (some d) = ⊥
  Forgets (some c) ops none = ⊥
  Forgets (some c) ops (some d) = Forgot c ops d

  Named-gone :
      (m : L.Map) (k : Bytes) (ops : List EncodedOp)
      → All (λ op. L.peek m op.user_key_bytes ≡ none) ops
      → Named k ops
      → L.peek m k ≡ none
  Named-gone m k [] a n = absurd n
  Named-gone m k (op ∷ ops) (p, a) (inl e) = ap (L.peek m) e ∙ p
  Named-gone m k (op ∷ ops) (p, a) (inr n) = Named-gone m k ops a n

  invalidate_all-Forgot :
      (ops : List EncodedOp) (c : RowCache L.Map) → Forgot c ops (invalidate_all crc S L c ops)
  unfolding invalidate_all invalidate pop_key bump_generation
  invalidate_all-Forgot [] c = (tt, (λ k. inr refl), omega arith)
  invalidate_all-Forgot (op ∷ ops) c =
      let key = op.user_key_bytes in
      let later : RowCache L.Map = invalidate_all crc S L (invalidate L c key) ops in
      let (gone, others, moved) = invalidate_all-Forgot ops (invalidate L c key) in
      ((here later gone (others key), gone), (λ k. other k later (others k)), omega (arith, moved))
    where
      here :
          (d : RowCache L.Map)
          → All (λ o. L.peek d.inner o.user_key_bytes ≡ none) ops
          → Named op.user_key_bytes ops
            ⊎ (L.peek d.inner op.user_key_bytes
                ≡ L.peek (L.pop c.inner op.user_key_bytes) op.user_key_bytes)
          → L.peek d.inner op.user_key_bytes ≡ none
      here d a (inl n) = Named-gone d.inner op.user_key_bytes ops a n
      here d a (inr e) = e ∙ L.peek-pop_same c.inner op.user_key_bytes

      other :
          (k : Bytes) (d : RowCache L.Map)
          → Named k ops ⊎ (L.peek d.inner k ≡ L.peek (L.pop c.inner op.user_key_bytes) k)
          → Named k (op ∷ ops) ⊎ (L.peek d.inner k ≡ L.peek c.inner k)
      other k d (inl n) = inl (inr n)
      other k d (inr e) = elim (Bool-cases (eq_bytes k op.user_key_bytes)) [
        | inl t ↦ inl (inl ((eq_bytes_iff k op.user_key_bytes).0 t))
        | inr f ↦ inr (
            e
            ∙ L.peek-pop_other c.inner op.user_key_bytes k
                (λ q. let t = (eq_bytes_iff k op.user_key_bytes).1 q in cc))
      ]

  -- The memtables and the log, rotated if the memtable is full and the lock of the rotation is free
  abbrev pub tables_after : Bool → Bool → MemtableManager S.Map → SeqNum → MemtableManager S.Map
  tables_after full unlocked t n = if full && unlocked then (Manager.rotate S t n).1 else t

  abbrev pub log_after : Bool → Bool → WalManager → WalManager
  log_after full unlocked w = if full && unlocked then (wal_rotate w).1 else w

  -- What is left alone
  abbrev pub SameSetup : Engine S.Map L.Map → Engine S.Map L.Map → Type 0
  SameSetup e d = (d.schema ≡ e.schema) × (d.read_only ≡ e.read_only) × (d.closed ≡ e.closed)

  -- What a batch of encoded operations makes of an engine
  pub record Effect (unlocked : Bool) (e d : Engine S.Map L.Map) (ops : List EncodedOp)
      : Type 0 where
    pub full : Bool
    pub memtable : MemtableManager S.Map
    pub applied :
        Manager.apply_batch S e.memtable (fill_batch (Batch.new e.global_seq) ops)
        ≡ ok (full, memtable)
    pub tables : d.memtable ≡ tables_after full unlocked memtable (next (e.global_seq + length ops))
    pub logged :
        d.wal
        ≡ log_after full unlocked (wal_append crc e.wal (fill_batch (Batch.new e.global_seq) ops))
    pub forgets : Forgets e.row_cache ops d.row_cache
    pub counter : d.global_seq ≡ e.global_seq + length ops
    pub visible : d.visible_seq ≡ max e.visible_seq (e.global_seq + length ops - 1)
    pub setup : SameSetup e d

  -- What the change to the cache leaves
  abbrev pub Keeps : Engine S.Map L.Map → Engine S.Map L.Map → Type 0
  Keeps e d =
      (d.memtable ≡ e.memtable)
      × (d.wal ≡ e.wal)
      × (d.global_seq ≡ e.global_seq)
      × (d.visible_seq ≡ e.visible_seq)
      × SameSetup e d

  abbrev KeepsBut :
      Option (RowCache L.Map) → Engine S.Map L.Map → List EncodedOp → Engine S.Map L.Map → Type 0
  KeepsBut c e ops d = Keeps e d × Forgets c ops d.row_cache

  pub forget_ops-Forgets :
      (e : Engine S.Map L.Map) (ops : List EncodedOp)
      → Keeps e (forget_ops crc S L e ops)
        × Forgets e.row_cache ops (forget_ops crc S L e ops).row_cache
  unfolding forget_ops
  forget_ops-Forgets e ops = go e.row_cache refl
    where
      go :
          (c : Option (RowCache L.Map))
          → e.row_cache ≡ c
          → KeepsBut c e ops (elim c [
            | none ↦ e
            | some cache ↦ record e { row_cache = some (invalidate_all crc S L cache ops) }
          ])
      go none q =
          ((refl, refl, refl, refl, (refl, refl, refl)), subst (λ r. Forgets none ops r) (sym q) tt)
      go (some cache) q =
          ((refl, refl, refl, refl, (refl, refl, refl)), invalidate_all-Forgot ops cache)
