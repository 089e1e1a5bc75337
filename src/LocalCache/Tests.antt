-- ===== src/LocalCache/Tests.antt =====
-- Runs of the cache of src/Cache/LocalCache.cpp, and the theorems at concrete caches. An info is
-- the number of its block and a number of its own.
use node_infrastructure_torr.Prelude.{
  ℕ, ◌-◌, ◌^◌, ◌≤◌, ◌≡◌, ◌⊎◌, refl, min, arith, true, false, List, [], ◌∷◌, some, none, ok, err,
  fault, out_of_range, Bytes, bytes_eq, bytes_eq_iff, find, assign, length, All, if◌then◌else◌,
}
use node_infrastructure_torr.Heap.{empty_heap}
use node_infrastructure_torr.Heap.Synced.{IsSynced}
use node_infrastructure_torr.Heap.Reduce.{among}
use node_infrastructure_torr.LocalCache.{
  full, LocalCacheElement, LocalCacheInternal, new_cache, next_num, add_element_internal,
  add_cached,
}
use node_infrastructure_torr.LocalCache.Infos.{
  add_infos, remove_last_infos, add_to_value, get_transactions, sub_vector,
}
use node_infrastructure_torr.LocalCache.Valid.{IsValid, new_cache-IsValid}
use node_infrastructure_torr.LocalCache.Runs.{
  put_transactions, drop_last_infos, run_call, CannotDrop, run_call-IsValid,
}
use node_infrastructure_torr.LocalCache.Evict.{IsLimited, add_cached-evicts, add_cached-keeps}
use node_infrastructure_torr.LocalCache.Greater.{
  Reports, find_greater_elements-add_infos, find_greater_elements-remove_last,
}
use node_infrastructure_torr.LocalCache.Blocks.{remove-add}
use node_infrastructure_torr.LocalCache.Pages.{get_transactions_wraps}

abbrev Info : Type 0
Info = ℕ × ℕ

abbrev block_number : Info → ℕ
block_number t = t.0

abbrev address : Bytes
address = 7 ∷ []

abbrev infos : List Info
infos = (5, 1) ∷ (4, 2) ∷ (4, 3) ∷ []

abbrev element : LocalCacheElement Info
element = record {
  value = full infos;
  block_unkles_or_new_num = 0;
  is_sync_blockchain_thread_updated = false;
}

abbrev one_address : LocalCacheInternal Info
one_address = record {
  cache = (address, element) ∷ [];
  no_sync_blockchain_thread_elements = (address, tt) ∷ [];
  last_block_num = 5;
  max_count_elements = 2;
  heap = empty_heap;
  is_save_full = true;
}

abbrev none_yet : LocalCacheInternal Info
none_yet = new_cache 2

none_yet-IsLimited : IsLimited block_number none_yet
none_yet-IsLimited = (omega arith, omega arith)

run_call-IsValid_example :
    ((c' : LocalCacheInternal Info) × (run_call block_number
          (put_transactions address infos false)
          none_yet
        ≡ ok c')
      × IsValid c')
    ⊎ ((a : Bytes) × (put_transactions address infos false ≡ drop_last_infos a)
        × CannotDrop block_number a none_yet)
run_call-IsValid_example =
    run_call-IsValid block_number (put_transactions address infos false) none_yet
      (new_cache-IsValid 2)

abbrev other_address : Bytes
other_address = 8 ∷ []

-- Two addresses that were read, and room for one.
abbrev two_read : LocalCacheInternal Info
two_read = record {
  cache = (address, element) ∷ (other_address, element) ∷ [];
  no_sync_blockchain_thread_elements = (address, tt) ∷ (other_address, tt) ∷ [];
  last_block_num = 5;
  max_count_elements = 1;
  heap = record {
    keys = (address, 8) ∷ (other_address, 5) ∷ [];
    heap = (5, other_address) ∷ (8, address) ∷ [];
  };
  is_save_full = true;
}

two_read-IsSynced : IsSynced two_read.heap
unfolding find bytes_eq
two_read-IsSynced = record {
  distinct = (refl, (refl, tt));
  counted = λ v k. ground (arith, bytes_eq_iff address k, bytes_eq_iff other_address k);
  sized = refl;
  ordered = omega arith;
}

two_read-IsValid : IsValid two_read
unfolding find
two_read-IsValid = record {
  marked = λ a. ground arith;
  synced = two_read-IsSynced;
  read = λ a h. ground arith;
}

two_read-IsLimited : IsLimited block_number two_read
two_read-IsLimited = (omega arith, omega arith)

abbrev third_address : Bytes
third_address = 9 ∷ []

add_cached-evicts_example :
    (removed : List Bytes) × (c' : LocalCacheInternal Info) × (add_cached block_number third_address
        infos false two_read
      ≡ ok c')
    × (length c'.heap.keys ≡ min two_read.max_count_elements (length two_read.heap.keys))
    × ((b : Bytes)
        → find b c'.heap.keys ≡ (if among b removed then none else find b two_read.heap.keys))
    × ((b : Bytes)
        → find b c'.cache ≡ (
            if among b removed
            then none
            else find b
                (add_element_internal block_number third_address infos false false two_read).cache))
    × All
        (λ r.
          (t : ℕ) × (find r two_read.heap.keys ≡ some t)
          × ((k : Bytes) (u : ℕ) → find k c'.heap.keys ≡ some u → t ≤ u))
        removed
add_cached-evicts_example =
    add_cached-evicts block_number third_address infos false two_read two_read-IsValid
      two_read-IsLimited

add_cached-keeps_example :
    (c' : LocalCacheInternal Info) × (add_cached block_number address infos false none_yet ≡ ok c')
    × ((b : Bytes)
        → find b none_yet.heap.keys ≡ none
        → find b c'.cache
          ≡ find b (add_element_internal block_number address infos false false none_yet).cache)
add_cached-keeps_example =
    add_cached-keeps block_number address infos false none_yet (new_cache-IsValid 2)
      none_yet-IsLimited

abbrev new_infos : List Info
new_infos = (6, 9) ∷ []

remove-add_example :
    remove_last_infos block_number address
      (add_infos block_number address ((6, 8) ∷ new_infos) one_address)
    ≡ ok (record one_address {
      cache =
          assign address
            (record element { block_unkles_or_new_num = next_num one_address.last_block_num })
            one_address.cache;
    })
unfolding find bytes_eq
remove-add_example =
    remove-add block_number address (6, 8) new_infos infos element one_address refl refl (refl, tt)
      (omega arith)

find_greater_elements-add_infos_example :
    Reports block_number
      (address ∷ [])
      5
      (add_infos block_number address ((6, 8) ∷ new_infos) one_address)
      address
      (add_to_value block_number ((6, 8) ∷ new_infos) element.value)
unfolding find bytes_eq
find_greater_elements-add_infos_example =
    find_greater_elements-add_infos block_number (address ∷ []) 5 address (6, 8) new_infos element
      one_address refl refl (omega arith)

abbrev one_block_less : LocalCacheInternal Info
one_block_less = record one_address {
  cache =
      (address, record element { value = full ((4, 2) ∷ (4, 3) ∷ []); block_unkles_or_new_num = 6 })
      ∷ [];
}

last_removed : remove_last_infos block_number address one_address ≡ ok one_block_less
unfolding remove_last_infos find assign bytes_eq
last_removed = refl

find_greater_elements-remove_last_example :
    (e : LocalCacheElement Info) × (find address one_block_less.cache ≡ some e)
    × Reports block_number (address ∷ []) 5 one_block_less address e.value
unfolding bytes_eq
find_greater_elements-remove_last_example =
    find_greater_elements-remove_last block_number (address ∷ []) 5 address one_address last_removed
      refl (omega arith) (omega arith)

get_transactions_wraps_example : get_transactions (full infos) (2 ^ 64 - 1) 2 ≡ fault
get_transactions_wraps_example =
    get_transactions_wraps infos (2 ^ 64 - 1) 2 (omega arith) (omega arith) (omega arith)
      (omega arith)

second_page : get_transactions (full infos) 1 5 ≡ ok ((4, 2) ∷ (4, 3) ∷ [])
unfolding get_transactions sub_vector
second_page = refl

not_there : run_call block_number (drop_last_infos address) none_yet ≡ err out_of_range
unfolding run_call remove_last_infos find
not_there = refl
