-- ===== src/Engine/Examples.antt =====
-- The row cache and the compaction iterator (engine/) on concrete keys.
use merutable.Engine.Cache
use merutable.Engine.Compaction
use merutable.Engine.Compaction.{
  CompactionEntry, FileEntries, sort_entries, flatten, insert_entry, flatten_entries,
}
use merutable.Engine.Compaction.Visible.{Grouped, current_row, new-current_row}
use merutable.Types.Key.{cmp, user_key_bytes}
use merutable.Types.Key.Tag.{tag_of}
use merutable.Bytes.{to_be_bytes}
use merutable.Engine.Cache.{CacheEntry, LruCache, RowCache}
use merutable.Engine.Cache.Fresh.{Reached, empty, one_more, get-current}
use merutable.Engine.Cache.Fresh.Steps.{Scene, read, insert, ReadResult}
use merutable.Types.Sequence.{OpType}
use merutable.Bytes.{Bytes, eq_bytes, cmp_bytes}
use merutable.Prelude.{
  [], ◌∷◌, subst, ◌≡◌, Option, arith, ◌≢◌, some, ◌⊎◌, none, if◌then◌else◌, inl, Bool-cases, refl,
  inr, sym, ◌∙◌, List, true, ℕ, ◌++◌,
}
use merutable.Bytes.Order.{eq_bytes_iff}

-- A cache that evicts nothing, as a function
abbrev pub changed :
    (Bytes → Option CacheEntry) → Bytes → Option CacheEntry → Bytes → Option CacheEntry
changed m k o j = if eq_bytes j k then o else m j

changed_cases :
    (m : Bytes → Option CacheEntry) (k j : Bytes) (o : Option CacheEntry)
    → ((j ≡ k) × (changed m k o j ≡ o)) ⊎ (changed m k o j ≡ m j)
changed_cases m k j o = elim (Bool-cases (eq_bytes j k)) [
  | inl t ↦ inl ((eq_bytes_iff j k).0 t, rw t)
  | inr u ↦ inr (rw u)
]

pub changed_same :
    (m : Bytes → Option CacheEntry) (k : Bytes) (o : Option CacheEntry) → changed m k o k ≡ o
changed_same m k o = rw ((eq_bytes_iff k k).1 refl)

pub put_law :
    (m : Bytes → Option CacheEntry) (k j : Bytes) (v e : CacheEntry)
    → changed m k (some v) j ≡ some e
    → ((j ≡ k) × (e ≡ v)) ⊎ (m j ≡ some e)
put_law m k j v e h = elim (changed_cases m k j (some v)) [
  | inl (p, q) ↦ inl (p, cc)
  | inr q ↦ inr (sym q ∙ h)
]

pub pop_law : (m : Bytes → Option CacheEntry) (k j : Bytes) → j ≢ k → changed m k none j ≡ m j
pop_law m k j n = elim (changed_cases m k j none) [ inl (p, q) ↦ absurd (n p) | inr q ↦ q ]

abbrev pub unbounded : LruCache
unbounded = record {
  Map = Bytes → Option CacheEntry;
  peek = λ m k. m k;
  empty = λ capacity k. none;
  promote = λ m k. m;
  put = λ m k v. changed m k (some v);
  pop = λ m k. changed m k none;
  clear = λ m k. none;
  peek-empty = λ capacity k. refl;
  peek-promote = λ m k j. refl;
  peek-put = put_law;
  peek-pop_same = λ m k. changed_same m k none;
  peek-pop_other = pop_law;
  peek-clear = λ m k. refl;
}

abbrev stored_row : CacheEntry
stored_row = record { op_type = OpType.put; row = record { fields = [] } }

abbrev quiet : Scene (Bytes → Option CacheEntry)
quiet = record {
  cache = record { inner = λ k. none; generation = 0; hits = 0; misses = 0 };
  store = λ k. stored_row;
  readers = [];
  written = λ k. 0;
  bumped = λ k. 0;
}

abbrev one_read : ReadResult
one_read = record { key = 1 ∷ []; entry = stored_row; captured_gen = 0 }

abbrev filled : RowCache (Bytes → Option CacheEntry)
filled = record {
  inner = changed (λ k. none) (1 ∷ []) (some stored_row);
  generation = 0;
  hits = 0;
  misses = 0;
}

filled_insert : Cache.insert_if_fresh unbounded quiet.cache (1 ∷ []) stored_row 0 ≡ filled
unfolding Cache.insert_if_fresh
filled_insert = refl

filled-Reached : Reached unbounded (record quiet { cache = filled })
filled-Reached =
    subst (λ c. Reached unbounded (record quiet { cache = c })) filled_insert
      (one_more (record quiet { readers = one_read ∷ [] }) _
        (one_more quiet _ (empty (λ k. stored_row) 4) (read quiet (1 ∷ []) 0 (omega arith)))
        (insert (record quiet { readers = one_read ∷ [] }) one_read [] refl))

filled_hit : Cache.get unbounded filled (1 ∷ []) ≡ (some stored_row, record filled { hits = 1 })
unfolding Cache.get eq_bytes cmp_bytes
filled_hit = refl

get-current_example : stored_row ≡ stored_row
get-current_example =
    get-current unbounded (record quiet { cache = filled }) (1 ∷ []) stored_row
      (record filled { hits = 1 }) filled-Reached refl refl filled_hit

abbrev compacted : Bytes → ℕ → OpType → CompactionEntry
compacted user seq op = record {
  ikey = record {
    encoded = user ++ to_be_bytes 8 (tag_of seq op);
    seq = seq;
    op_type = op;
    pk_values = [];
  };
  row = record { fields = [] };
  source_file_idx = 0;
  row_position = 0;
}

abbrev one_file : List FileEntries
one_file =
    record {
      file_idx = 0;
      entries =
          ((compacted (1 ∷ []) 4 OpType.put).ikey, (record { fields = [] }, 0))
          ∷ ((compacted (1 ∷ []) 2 OpType.delete).ikey, (record { fields = [] }, 1))
          ∷ [];
    }
    ∷ []

one_file-Grouped : Grouped (sort_entries (flatten one_file))
unfolding sort_entries insert_entry flatten flatten_entries cmp cmp_bytes to_be_bytes user_key_bytes
one_file-Grouped = ((λ p. omega arith, λ n. absurd (n refl)), tt)

new-current_row_example :
    current_row (1 ∷ []) (Compaction.new one_file 3 true)
    ≡ current_row (1 ∷ []) (sort_entries (flatten one_file))
new-current_row_example = new-current_row one_file 3 true (1 ∷ []) one_file-Grouped
