-- ===== src/Heap/Tests.antt =====
-- Runs of the heap of src/utils/Heap.cpp, and the theorems at concrete heaps.
use node_infrastructure_torr.Prelude.{
  ◌≡◌, refl, arith, List, [], ◌∷◌, ok, ◌>>=◌, Bytes, bytes_eq, bytes_eq_iff, find, assign, erase,
}
use node_infrastructure_torr.Heap.{
  Heap, empty_heap, multimap_insert, add_element, reduce_loop, reduce_to_max, erase_entry,
}
use node_infrastructure_torr.Heap.Synced.{IsSynced, add_element-IsSynced}
use node_infrastructure_torr.Heap.Reduce.{IsReduced, reduce_to_max-IsReduced}

abbrev first_key : Bytes
first_key = 1 ∷ []

abbrev second_key : Bytes
second_key = 2 ∷ []

abbrev third_key : Bytes
third_key = 3 ∷ []

abbrev two_keys : Heap
two_keys = record {
  keys = (first_key, 8) ∷ (second_key, 5) ∷ [];
  heap = (5, second_key) ∷ (8, first_key) ∷ [];
}

two_keys-IsSynced : IsSynced two_keys
unfolding find bytes_eq
two_keys-IsSynced = record {
  distinct = (refl, (refl, tt));
  counted = λ v k. ground (arith, bytes_eq_iff first_key k, bytes_eq_iff second_key k);
  sized = refl;
  ordered = omega arith;
}

add_element-IsSynced_example :
    (h' : Heap) × (add_element second_key 9 two_keys ≡ ok h')
    × (h'.keys ≡ assign second_key 9 two_keys.keys)
    × IsSynced h'
add_element-IsSynced_example = add_element-IsSynced second_key 9 two_keys two_keys-IsSynced

reduce_to_max-IsReduced_example :
    (removed : List Bytes) × (h' : Heap) × (reduce_to_max 1 two_keys ≡ ok (removed, h'))
    × IsReduced 1 two_keys.keys removed h'
reduce_to_max-IsReduced_example = reduce_to_max-IsReduced 1 two_keys (omega arith) two_keys-IsSynced

-- Three keys, the first read again, then room for two.
three_reads :
    (do
      a ← add_element first_key 3 empty_heap
      b ← add_element second_key 4 a
      c ← add_element third_key 4 b
      d ← add_element first_key 7 c
      reduce_to_max 2 d)
    ≡ ok (
      second_key ∷ [],
      record {
        keys = (first_key, 7) ∷ (third_key, 4) ∷ [];
        heap = (4, third_key) ∷ (7, first_key) ∷ [];
      },
    )
unfolding add_element multimap_insert reduce_to_max reduce_loop erase_entry find assign erase
    bytes_eq
three_reads = refl
