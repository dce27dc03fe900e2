-- ===== src/Memtable/SkipMap.antt =====
-- `SkipMap` of the package crossbeam_skiplist, as memtable/skiplist.rs uses it: a map from byte
-- strings, in their order. Its code is not here, so what it documents is an interface.
use merutable.Prelude.{List, [], ◌∷◌, lt, eq, gt, ◌≡◌, refl}
pub mod Sorted
use merutable.Bytes.{Bytes, cmp_bytes}

module _ {V : Type 0} where
  -- A new entry in its place by the order of the keys, or in that of an entry with its key
  unfoldable pub insert_sorted : Bytes → V → List (Bytes × V) → List (Bytes × V)
  insert_sorted k v [] = (k, v) ∷ []
  insert_sorted k v ((k', v') ∷ l) = elim (cmp_bytes k k') [
    | lt ↦ (k, v) ∷ (k', v') ∷ l
    | eq ↦ (k, v) ∷ l
    | gt ↦ (k', v') ∷ insert_sorted k v l
  ]

  -- The entries from the first key that is not below the bound
  unfoldable pub drop_below : Bytes → List (Bytes × V) → List (Bytes × V)
  drop_below k [] = []
  drop_below k ((k', v') ∷ l) = elim (cmp_bytes k' k) [ lt ↦ drop_below k l | _ ↦ (k', v') ∷ l ]

-- `insert` puts an entry in the place of one with its key, `iter` goes through the entries by key,
-- and `lower_bound` of an included bound is a cursor whose `next` goes on from there.
pub record SkipMap (V : Type 0) : Type 1 where
  pub Map : Type 0
  pub new : Map
  pub insert : Map → Bytes → V → Map
  pub iter : Map → List (Bytes × V)
  pub lower_bound : Map → Bytes → List (Bytes × V)
  pub iter-new : iter new ≡ []
  pub iter-insert : (m : Map) (k : Bytes) (v : V) → iter (insert m k v) ≡ insert_sorted k v (iter m)
  pub lower_bound-iter : (m : Map) (k : Bytes) → lower_bound m k ≡ drop_below k (iter m)

-- A sorted list is such a map.
abbrev pub sorted_list : {V : Type 0} → SkipMap V
sorted_list {V} = record {
  Map = List (Bytes × V);
  new = [];
  insert = λ m k v. insert_sorted k v m;
  iter = λ m. m;
  lower_bound = λ m k. drop_below k m;
  iter-new = refl;
  iter-insert = λ m k v. refl;
  lower_bound-iter = λ m k. refl;
}
