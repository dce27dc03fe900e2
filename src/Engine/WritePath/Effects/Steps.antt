-- ===== src/Engine/WritePath/Effects/Steps.antt =====
-- The steps of a batch of engine/write_path.rs, and what they come to.
use merutable.Engine.Cache.{LruCache}
use merutable.Engine.WritePath.{
  Engine, EncodedOp, fill_batch, write_locked, forget_ops, rotate_full,
}
use merutable.Engine.WritePath.Effects.{
  Effect, Forgets, SameSetup, tables_after, log_after, forget_ops-Forgets,
}
use merutable.Memtable.Manager
use merutable.Memtable.Manager.{MemtableManager}
use merutable.Memtable.SkipMap.{SkipMap}
use merutable.Memtable.Skiplist.{EntryValue}
use merutable.Memtable.Table
use merutable.Memtable.Table.{Memtable}
use merutable.Types.Sequence.{SeqNum, allocate_n, set_at_least, seqnum_max, next}
use merutable.Prelude.{true, false, Result, ap₂, refl, subst}
use merutable.Wal.Batch
use merutable.Wal.Batch.{WriteBatch}
use merutable.Wal.Manager.{append as wal_append, rotate as wal_rotate}
use merutable.Bytes.{Bytes}
use merutable.Prelude.{
  ℕ, List, Bool, ◌≡◌, ◌<◌, ok, if◌then◌else◌, length, panic, ◌+◌, ◌&&◌, ◌≤◌, ok_inj, sym, max, ap,
  ◌-◌, ◌∙◌, >>=-eq-ok, ◌%◌, ◌^◌, arith,
}

module _ (crc : Bytes → ℕ) (S : SkipMap EntryValue) (L : LruCache) where
  -- The memtable that took the batch says itself whether it is full.
  apply_batch-flush :
      (mgr m : MemtableManager S.Map) (b : WriteBatch) (full : Bool)
      → Manager.apply_batch S mgr b ≡ ok (full, m)
      → full ≡ Table.should_flush S m.active
  unfolding Manager.apply_batch Table.apply_batch
  apply_batch-flush mgr m b full h =
      let ((f, t), p, q) = >>=-eq-ok (Table.apply_batch S mgr.active b) _ h in
      let same = ok_inj q in
      sym (ap (λ (x : Bool × MemtableManager S.Map). x.0) same)
      ∙ own mgr.active.sealed f t p
      ∙ ap (λ (x : Bool × MemtableManager S.Map). Table.should_flush S x.1.active) same
    where
      own :
          (closed : Bool) (f : Bool) (t : Memtable S.Map)
          → if◌then◌else◌ {A = Result (Bool × Memtable S.Map)} closed panic (
              ok (
                Table.should_flush S (Table.apply_records S mgr.active b.sequence b.records),
                Table.apply_records S mgr.active b.sequence b.records,
              ))
            ≡ ok (f, t)
          → f ≡ Table.should_flush S t
      own true f t e = cc
      own false f t e =
          let same = ok_inj e in
          sym (ap (λ (x : Bool × Memtable S.Map). x.0) same)
          ∙ ap (λ (x : Bool × Memtable S.Map). Table.should_flush S x.1) same

  write_locked-state :
      (e d : Engine S.Map L.Map) (ops : List EncodedOp) (base : SeqNum) (full : Bool)
      → 0 < length ops
      → e.global_seq + length ops ≤ seqnum_max
      → write_locked crc S L e ops ≡ ok (base, full, d)
      → (memtable : MemtableManager S.Map) × (Manager.apply_batch S e.memtable
            (fill_batch (Batch.new e.global_seq) ops)
          ≡ ok (full, memtable))
        × (base ≡ e.global_seq)
        × (d ≡ record e {
          global_seq = e.global_seq + length ops;
          wal = wal_append crc e.wal (fill_batch (Batch.new e.global_seq) ops);
          memtable = memtable;
          visible_seq = max e.visible_seq (e.global_seq + length ops - 1);
        })
  unfolding write_locked allocate_n set_at_least
  write_locked-state e d ops base full some_ops room h =
      let batch = fill_batch (Batch.new e.global_seq) ops in
      let ((f, m), p, q) = >>=-eq-ok (Manager.apply_batch S e.memtable batch) _ h in
      let same = ok_inj q in
      let counted : (e.global_seq + length ops) % 2 ^ 64 ≡ e.global_seq + length ops =
        omega (arith, room) in
      let seen : set_at_least e.visible_seq ((e.global_seq + length ops + 2 ^ 64 - 1) % 2 ^ 64)
          ≡ max e.visible_seq (e.global_seq + length ops - 1) =
        ground (arith, room, some_ops) in
      (
        m,
        p ∙ ap (λ (x : SeqNum × Bool × Engine S.Map L.Map). ok (x.1, m)) same,
        sym (ap (λ (x : SeqNum × Bool × Engine S.Map L.Map). x.0) same),
        sym (ap (λ (x : SeqNum × Bool × Engine S.Map L.Map). x.2) same) ∙ λ i. record e {
          global_seq = counted i;
          wal = wal_append crc e.wal batch;
          memtable = m;
          visible_seq = seen i;
        },
      )

  -- What the rotation leaves
  abbrev pub Rotates : Bool → Bool → Engine S.Map L.Map → Engine S.Map L.Map → Type 0
  Rotates full unlocked e d =
      (d.memtable ≡ tables_after crc S L full unlocked e.memtable (next e.global_seq))
      × (d.wal ≡ log_after crc S L full unlocked e.wal)
      × (d.row_cache ≡ e.row_cache)
      × (d.global_seq ≡ e.global_seq)
      × (d.visible_seq ≡ e.visible_seq)
      × SameSetup crc S L e d

  rotate_full-Rotates :
      (unlocked full : Bool) (e : Engine S.Map L.Map)
      → full ≡ Table.should_flush S e.memtable.active
      → Rotates full unlocked e (rotate_full crc S L unlocked full e)
  unfolding rotate_full
  rotate_full-Rotates unlocked full e q =
      go full unlocked (Table.should_flush S e.memtable.active) q
    where
      go :
          (f u s : Bool)
          → f ≡ s
          → Rotates f u e (
              if f && (u && s)
              then record e {
                memtable = (Manager.rotate S e.memtable (next e.global_seq)).1;
                wal = (wal_rotate e.wal).1;
              }
              else e)
      go true true true q = (refl, refl, refl, refl, refl, (refl, refl, refl))
      go true true false q = cc
      go true false s q = (refl, refl, refl, refl, refl, (refl, refl, refl))
      go false u s q = (refl, refl, refl, refl, refl, (refl, refl, refl))

  pub steps-Effect :
      (unlocked : Bool) (e d e' : Engine S.Map L.Map) (ops : List EncodedOp) (base : SeqNum)
      (full : Bool)
      → 0 < length ops
      → e.global_seq + length ops ≤ seqnum_max
      → write_locked crc S L e ops ≡ ok (base, full, d)
      → e' ≡ rotate_full crc S L unlocked full (forget_ops crc S L d ops)
      → Effect crc S L unlocked e e' ops
  steps-Effect unlocked e d e' ops base full some_ops room h last =
      let (m, applied, at, state) = write_locked-state e d ops base full some_ops room h in
      let x = forget_ops crc S L d ops in
      let ((tables, log, counter, seen, setup), forgot) = forget_ops-Forgets crc S L d ops in
      let d_tables = ap (λ (y : Engine S.Map L.Map). y.memtable) state in
      let d_log = ap (λ (y : Engine S.Map L.Map). y.wal) state in
      let d_counter = ap (λ (y : Engine S.Map L.Map). y.global_seq) state in
      let d_seen = ap (λ (y : Engine S.Map L.Map). y.visible_seq) state in
      let own =
        apply_batch-flush e.memtable m (fill_batch (Batch.new e.global_seq) ops) full applied
        ∙ ap (λ (t : MemtableManager S.Map). Table.should_flush S t.active)
            (sym (tables ∙ d_tables)) in
      let (r_tables, r_log, r_cache, r_counter, r_seen, r_setup) =
        rotate_full-Rotates unlocked full x own in
      let e_forgets = ap (λ (y : Engine S.Map L.Map). y.row_cache) state in
      let (schema, read_only, closed) = setup in
      let (r_schema, r_read_only, r_closed) = r_setup in
      record {
        full = full;
        memtable = m;
        applied = applied;
        tables =
            ap (λ (y : Engine S.Map L.Map). y.memtable) last
            ∙ r_tables
            ∙ ap₂ (λ t n. tables_after crc S L full unlocked t (next n)) (tables ∙ d_tables)
                (counter ∙ d_counter);
        logged =
            ap (λ (y : Engine S.Map L.Map). y.wal) last
            ∙ r_log
            ∙ ap (log_after crc S L full unlocked) (log ∙ d_log);
        forgets =
            subst (Forgets crc S L e.row_cache ops)
              (sym (ap (λ (y : Engine S.Map L.Map). y.row_cache) last ∙ r_cache))
              (subst (λ c. Forgets crc S L c ops x.row_cache) e_forgets forgot);
        counter =
            ap (λ (y : Engine S.Map L.Map). y.global_seq) last ∙ r_counter ∙ counter ∙ d_counter;
        visible = ap (λ (y : Engine S.Map L.Map). y.visible_seq) last ∙ r_seen ∙ seen ∙ d_seen;
        setup = (
          ap (λ (y : Engine S.Map L.Map). y.schema) last
              ∙ r_schema
              ∙ schema
              ∙ ap (λ (y : Engine S.Map L.Map). y.schema) state,
          ap (λ (y : Engine S.Map L.Map). y.read_only) last
              ∙ r_read_only
              ∙ read_only
              ∙ ap (λ (y : Engine S.Map L.Map). y.read_only) state,
          ap (λ (y : Engine S.Map L.Map). y.closed) last
              ∙ r_closed
              ∙ closed
              ∙ ap (λ (y : Engine S.Map L.Map). y.closed) state,
        );
      }
