-- ===== src/Memtable/Manager/Refinement.antt =====
-- The memtables together hold one history, whichever way it is cut into tables.
use merutable.Memtable.Manager
use merutable.Memtable.Manager.{MemtableManager, retain_others}
use merutable.Memtable.Table
use merutable.Memtable.Table.{Memtable}
use merutable.Memtable.Table.History.{history_of, Represents, get-Represents}
use merutable.Memtable.Skiplist.Lookup.{Version, Descending, Apart, lookup}
use mathlib.Core.List.{reverse-cons}
use merutable.Prelude.{
  List, Option, some, All, ◌++◌, ◌∷◌, none, [], reverse, ◌≡◌, false, arith, ap, sym, ◌∙◌, ◌+◌, ap₂,
  refl, append-nil, append_assoc,
}
use merutable.Bytes.{Bytes}
use merutable.Memtable.SkipMap.{SkipMap}
use merutable.Types.Sequence.{SeqNum}
use merutable.Wal.Batch.{BatchRecord}
use merutable.Memtable.Skiplist.{EntryValue}

-- The histories of sealed memtables, oldest memtable first, as one
abbrev pub past : List (List Version) → List Version
past [] = []
past (h ∷ hs) = past hs ++ h

pub past-append : (hs : List (List Version)) (h : List Version) → past (hs ++ h ∷ []) ≡ h ++ past hs
past-append [] h = sym (append-nil h)
past-append (g ∷ hs) h = ap (λ l. l ++ g) (past-append hs h) ∙ append_assoc h (past hs) g

-- `Option::or_else`
abbrev pub or_else : {A : Type 0} → Option A → Option A → Option A
or_else none b = b
or_else (some a) b = some a

lookup-append :
    (u : Bytes) (read_seq : SeqNum) (g h : List Version)
    → lookup u read_seq (g ++ h) ≡ or_else (lookup u read_seq g) (lookup u read_seq h)
unfolding lookup
lookup-append u read_seq [] h = refl
lookup-append u read_seq (v ∷ g) h = ground (arith, lookup-append u read_seq g h)

pub All-parts : {A : Type 0} (P : A → Type 0) (g h : List A) → All P (g ++ h) → All P g × All P h
All-parts P [] h a = (tt, a)
All-parts P (x ∷ g) h a = let (p, q) = All-parts P g h a.1 in ((a.0, p), q)

pub Descending-parts : (g h : List Version) → Descending (g ++ h) → Descending g × Descending h
Descending-parts [] h d = (tt, d)
Descending-parts (v ∷ g) h d =
    let (p, q) = Descending-parts g h d.2 in ((d.0, (All-parts _ g h d.1).0, p), q)

pub history_of-append :
    (rs : List BatchRecord) (seq : SeqNum) (g h : List Version)
    → history_of seq rs g ++ h ≡ history_of seq rs (g ++ h)
unfolding history_of
history_of-append [] seq g h = refl
history_of-append (r ∷ rs) seq g h = history_of-append rs (seq + 1) _ h

module _ (S : SkipMap EntryValue) where
  abbrev pub QueueHolds : List (Memtable S.Map) → List (List Version) → Type 0
  QueueHolds [] [] = Unit
  QueueHolds [] (h ∷ hs) = ⊥
  QueueHolds (m ∷ ms) [] = ⊥
  QueueHolds (m ∷ ms) (h ∷ hs) = Represents S m h × QueueHolds ms hs

  -- The active memtable takes writes, and each memtable holds its part of one falling history.
  pub record Holds (mgr : MemtableManager S.Map) (h : List Version) (hs : List (List Version))
      : Type 0 where
    pub open_ : mgr.active.sealed ≡ false
    pub now : Represents S mgr.active h
    pub queue : QueueHolds mgr.immutable hs
    pub falls : Descending (h ++ past hs)

  pub QueueHolds-append :
      (ms : List (Memtable S.Map)) (hs : List (List Version)) (m : Memtable S.Map)
      (h : List Version)
      → QueueHolds ms hs
      → Represents S m h
      → QueueHolds (ms ++ m ∷ []) (hs ++ h ∷ [])
  QueueHolds-append [] [] m h q e = (e, tt)
  QueueHolds-append [] (g ∷ hs) m h q e = absurd q
  QueueHolds-append (n ∷ ms) [] m h q e = absurd q
  QueueHolds-append (n ∷ ms) (g ∷ hs) m h q e = (q.0, QueueHolds-append ms hs m h q.1 e)

  get_queue-append :
      (ms : List (Memtable S.Map)) (m : Memtable S.Map) (u : Bytes) (read_seq : SeqNum)
      → Manager.get_queue S (ms ++ m ∷ []) u read_seq
        ≡ or_else (Manager.get_queue S ms u read_seq) (Table.get S m u read_seq)
  unfolding Manager.get_queue
  get_queue-append [] m u read_seq = ground arith
  get_queue-append (n ∷ ms) m u read_seq = ground (arith, get_queue-append ms m u read_seq)

  get_queue-lookup :
      (ms : List (Memtable S.Map)) (hs : List (List Version)) (u : Bytes) (read_seq : SeqNum)
      → QueueHolds ms hs
      → Descending (past hs)
      → All (λ v. Apart u v.user_key) (past hs)
      → Manager.get_queue S (reverse ms) u read_seq ≡ lookup u read_seq (past hs)
  get_queue-lookup [] [] u read_seq q d a = unfold Manager.get_queue lookup in refl
  get_queue-lookup [] (g ∷ hs) u read_seq q d a = absurd q
  get_queue-lookup (n ∷ ms) [] u read_seq q d a = absurd q
  get_queue-lookup (m ∷ ms) (h ∷ hs) u read_seq q d a =
      let (dl, dr) = Descending-parts (past hs) h d in
      let (al, ar) = All-parts _ (past hs) h a in
      ap (λ l. Manager.get_queue S l u read_seq) (reverse-cons m ms)
      ∙ get_queue-append (reverse ms) m u read_seq
      ∙ ap₂ or_else (get_queue-lookup ms hs u read_seq q.1 dl al)
          (get-Represents S m h u read_seq q.0 dr ar)
      ∙ sym (lookup-append u read_seq (past hs) h)

  pub get-Holds :
      (mgr : MemtableManager S.Map) (h : List Version) (hs : List (List Version)) (u : Bytes)
      (read_seq : SeqNum)
      → Holds mgr h hs
      → All (λ v. Apart u v.user_key) (h ++ past hs)
      → Manager.get S mgr u read_seq ≡ lookup u read_seq (h ++ past hs)
  unfolding Manager.get
  get-Holds mgr h hs u read_seq q a =
      let (dl, dr) = Descending-parts h (past hs) q.falls in
      let (al, ar) = All-parts _ h (past hs) a in
      first_found (Table.get S mgr.active u read_seq) _
      ∙ ap₂ or_else (get-Represents S mgr.active h u read_seq q.now dl al)
          (get_queue-lookup mgr.immutable hs u read_seq q.queue dr ar)
      ∙ sym (lookup-append u read_seq h (past hs))
    where
      first_found :
          (x y : Option EntryValue) → (elim x [ some e ↦ some e | none ↦ y ]) ≡ or_else x y
      first_found none y = refl
      first_found (some e) y = refl
