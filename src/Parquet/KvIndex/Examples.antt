-- ===== src/Parquet/KvIndex/Examples.antt =====
-- The index (parquet/kv_index.rs) on three keys.
use merutable.Bytes.{Bytes, to_le_bytes, cmp_bytes}
use merutable.Parquet.KvIndex.{
  PageLocation, KvSparseIndex, build, build_entries, is_restart, shared_of, shared_prefix_len,
  encode_entry, header, offset_bytes, from_bytes, iter, find_page_with_next,
}
use merutable.Parquet.KvIndex.Build.{Ordered}
use merutable.Parquet.KvIndex.RoundTrip.{from_bytes-build}
use merutable.Parquet.KvIndex.Scan.{last_at_most}
use merutable.Prelude.{List, [], ◌∷◌, ◌≡◌, none, some, ok, refl, arith}

abbrev three : List (Bytes × PageLocation)
three =
    (1 ∷ 2 ∷ [], record { page_offset = 4; page_size = 100; first_row_index = 0 })
    ∷ (1 ∷ 3 ∷ [], record { page_offset = 104; page_size = 100; first_row_index = 10 })
    ∷ (2 ∷ [], record { page_offset = 204; page_size = 90; first_row_index = 20 })
    ∷ []

abbrev written : Bytes
written =
    1 ∷ 0 ∷ 0 ∷ 0 ∷ 3 ∷ 0 ∷ 0 ∷ 0 ∷ 2 ∷ 0 ∷ 0 ∷ 0 ∷ 76 ∷ 0 ∷ 0 ∷ 0 ∷ 2 ∷ 0 ∷ 0 ∷ 0 ∷ 0 ∷ 0 ∷ 0 ∷ 0
    ∷ 0 ∷ 0 ∷ 2 ∷ 0 ∷ 1 ∷ 2 ∷ 4 ∷ 0 ∷ 0 ∷ 0 ∷ 0 ∷ 0 ∷ 0 ∷ 0 ∷ 100 ∷ 0 ∷ 0 ∷ 0 ∷ 0 ∷ 0 ∷ 0 ∷ 0 ∷ 0
    ∷ 0 ∷ 0 ∷ 0 ∷ 1 ∷ 0 ∷ 1 ∷ 0 ∷ 3 ∷ 104 ∷ 0 ∷ 0 ∷ 0 ∷ 0 ∷ 0 ∷ 0 ∷ 0 ∷ 100 ∷ 0 ∷ 0 ∷ 0 ∷ 10 ∷ 0 ∷ 0
    ∷ 0 ∷ 0 ∷ 0 ∷ 0 ∷ 0 ∷ 0 ∷ 0 ∷ 1 ∷ 0 ∷ 2 ∷ 204 ∷ 0 ∷ 0 ∷ 0 ∷ 0 ∷ 0 ∷ 0 ∷ 0 ∷ 90 ∷ 0 ∷ 0 ∷ 0 ∷ 20
    ∷ 0 ∷ 0 ∷ 0 ∷ 0 ∷ 0 ∷ 0 ∷ 0 ∷ 0 ∷ 0 ∷ 0 ∷ 0 ∷ 51 ∷ 0 ∷ 0 ∷ 0 ∷ []

built : build three 2 ≡ ok written
unfolding build build_entries is_restart shared_of shared_prefix_len encode_entry header
    offset_bytes to_le_bytes cmp_bytes
built = refl

found :
    last_at_most (1 ∷ 4 ∷ []) none three
    ≡ some (record { page_offset = 104; page_size = 100; first_row_index = 10 }, some 20)
unfolding last_at_most cmp_bytes
found = refl

from_bytes-build_example :
    Ordered 0 [] three
    × ((index : KvSparseIndex) × (from_bytes written ≡ ok index)
        × (iter index ≡ ok three)
        × ((target : Bytes)
            → find_page_with_next index target ≡ ok (last_at_most target none three)))
from_bytes-build_example =
    from_bytes-build three 2 written (omega arith) (omega arith) (omega arith) (omega arith) built
