-- ===== src/LocalCache.antt =====
-- `LocalCacheElement` and `LocalCacheInternal` of src/Cache/LocalCache.h and src/Cache/LocalCache.cpp,
-- over the infos of an address (`TransactionInfo` or `TransactionStatus`) and their block numbers.
-- The methods run one after the other: each takes the lock, and `addElement` and `addIfNoExist` are
-- not interrupted between their two locks.
pub mod Infos
pub mod Valid
pub mod Runs
pub mod Evict
pub mod Greater
pub mod Blocks
pub mod Pages
mod Tests
use node_infrastructure_torr.Prelude.{
  ℕ, ◌+◌, ◌^◌, ◌%◌, ◌-◌, Bool, true, false, not, ◌||◌, List, [], ◌∷◌, Option, none, some, ltb, ◌==◌,
  if◌then◌else◌, Result, ok, ◌>>=◌, Bytes, Map, find, assign, erase,
}
use node_infrastructure_torr.BlockInfo.Transactions.{get_max_block_number, is_greater}
use node_infrastructure_torr.Heap.{Heap, empty_heap, add_element, reduce_to_max}

-- std::variant<size_t, std::vector<VectorElement>>
pub data Value {ℓ} (A : Type ℓ) : Type ℓ where
  max_number : ℕ → Value A
  full : List A → Value A

pub record LocalCacheElement {ℓ} (A : Type ℓ) : Type ℓ where
  pub value : Value A
  pub block_unkles_or_new_num : ℕ
  pub is_sync_blockchain_thread_updated : Bool

-- A `std::unordered_set<HashedString>`.
abbrev pub Addresses : Type 0
Addresses = Map (Unit {0})

abbrev pub is_member {ℓ} : {V : Type ℓ} → Bytes → Map V → Bool
is_member a m = elim (find a m) [ none ↦ false | some _ ↦ true ]

abbrev pub disabled_cache : ℕ
disabled_cache = 0

abbrev pub without_limitation : ℕ
without_limitation = 2 ^ 64 - 1

-- lastBlockNum + 1
abbrev pub next_num : ℕ → ℕ
next_num last_block_num = (last_block_num + 1) % 2 ^ 64

pub record LocalCacheInternal {ℓ} (A : Type ℓ) : Type ℓ where
  pub cache : Map (LocalCacheElement A)
  pub no_sync_blockchain_thread_elements : Addresses
  pub last_block_num : ℕ
  pub max_count_elements : ℕ
  pub heap : Heap
  pub is_save_full : Bool

-- BatchResults
pub record BatchResults {ℓ} (A : Type ℓ) : Type ℓ where
  pub elements : List (Bytes × Value A)
  pub last_block_num : ℕ

module _ {ℓ} {A : Type ℓ} where
  -- The constructor.
  abbrev pub new_cache : ℕ → LocalCacheInternal A
  new_cache max_count_elements = record {
    cache = [];
    no_sync_blockchain_thread_elements = [];
    last_block_num = 0;
    max_count_elements = max_count_elements;
    heap = empty_heap;
    is_save_full = true;
  }

  pub remove_element : Bytes → LocalCacheInternal A → LocalCacheInternal A
  remove_element address c = record c {
    cache = erase address c.cache;
    no_sync_blockchain_thread_elements = erase address c.no_sync_blockchain_thread_elements;
  }

  -- The loop of `addElement` over the addresses that the heap gave up.
  pub remove_elements : List Bytes → LocalCacheInternal A → LocalCacheInternal A
  remove_elements [] c = c
  remove_elements (address ∷ rest) c = remove_elements rest (remove_element address c)

  -- The loop of `setLastBlockNum` over the elements.
  pub mark_all : ℕ → Map (LocalCacheElement A) → Map (LocalCacheElement A)
  mark_all num [] = []
  mark_all num ((a, e) ∷ rest) = (a, record e { block_unkles_or_new_num = num }) ∷ mark_all num rest

  pub set_last_block_num : ℕ → LocalCacheInternal A → LocalCacheInternal A
  unfolding mark_all
  set_last_block_num new_last_block_num c = record c {
    cache =
        if c.last_block_num == 0 then mark_all (next_num new_last_block_num) c.cache else c.cache;
    last_block_num = new_last_block_num;
  }

  pub is_exist : Bytes → LocalCacheInternal A → Bool
  is_exist address c = is_member address c.cache

  pub is_sync_updated : Bytes → LocalCacheInternal A → Bool
  is_sync_updated address c = elim (find address c.cache) [
    | none ↦ false
    | some e ↦ e.is_sync_blockchain_thread_updated
  ]

  -- The value that is found, where there is one, and the cache whose heap knows of the reading.
  pub get_value_if_exist :
      Bytes → ℕ → LocalCacheInternal A → Result (Option (Value A) × LocalCacheInternal A)
  get_value_if_exist address now c =
      if c.max_count_elements == disabled_cache then ok (none, c) else elim (find address c.cache) [
        | none ↦ ok (none, c)
        | some e ↦ if c.max_count_elements == without_limitation then ok (some e.value, c) else do
          heap ← add_element address now c.heap
          ok (some e.value, record c { heap = heap })
      ]

module _ {ℓ} {A : Type ℓ} (number : A → ℕ) where
  pub make_new_element_value : List A → Bool → Value A
  make_new_element_value value is_save_full =
      if is_save_full then full value else max_number (get_max_block_number number value)

  pub new_element : List A → Bool → Bool → LocalCacheInternal A → LocalCacheElement A
  unfolding make_new_element_value
  new_element value is_sync_blockchain_thread_updated is_new_element c = record {
    value = make_new_element_value value c.is_save_full;
    block_unkles_or_new_num = if is_new_element then next_num c.last_block_num else 0;
    is_sync_blockchain_thread_updated = is_sync_blockchain_thread_updated;
  }

  pub add_element_internal :
      Bytes → List A → Bool → Bool → LocalCacheInternal A → LocalCacheInternal A
  unfolding new_element
  add_element_internal address value is_sync_blockchain_thread_updated is_new_element c =
      let e = new_element value is_sync_blockchain_thread_updated is_new_element c in
      if not is_sync_blockchain_thread_updated
      then record c {
        cache = assign address e c.cache;
        no_sync_blockchain_thread_elements = assign address tt c.no_sync_blockchain_thread_elements;
      }
      else elim (find address c.cache) [
        | none ↦ c
        | some _ ↦ record c {
          cache = assign address e c.cache;
          no_sync_blockchain_thread_elements = erase address c.no_sync_blockchain_thread_elements;
        }
      ]

  pub add_cached : Bytes → List A → Bool → LocalCacheInternal A → Result (LocalCacheInternal A)
  unfolding add_element_internal
  add_cached address value is_sync_blockchain_thread_updated c =
      let c' = add_element_internal address value is_sync_blockchain_thread_updated false c in
      if c.max_count_elements == disabled_cache
      then ok c
      else if c.max_count_elements == without_limitation
      then ok c'
      else do
        (addrs, heap) ← reduce_to_max c'.max_count_elements c'.heap
        ok (remove_elements addrs (record c' { heap = heap }))

  pub add_if_no_exist :
      Bytes → (Bytes → List A) → Bool → Bool → LocalCacheInternal A → LocalCacheInternal A
  unfolding add_element_internal
  add_if_no_exist address getter is_sync_blockchain_thread_updated is_initialized c =
      elim (find address c.cache) [
        | none ↦
            add_element_internal address (getter address) is_sync_blockchain_thread_updated true c
        | some e ↦ if is_initialized then c else record c {
          cache =
              assign address (record e { block_unkles_or_new_num = next_num c.last_block_num })
                c.cache;
        }
      ]

  -- isGreater(element.value, blockNumber)
  pub is_value_greater : Value A → ℕ → Bool
  is_value_greater (max_number n) block_number = ltb block_number n
  is_value_greater (full infos) block_number = is_greater number infos block_number

  pub is_changed : ℕ → LocalCacheElement A → Bool
  unfolding is_value_greater
  is_changed block_num e =
      ltb block_num e.block_unkles_or_new_num || is_value_greater e.value block_num

  -- The loop of `findGreaterElements`.
  pub greater_elements : List Bytes → ℕ → Map (LocalCacheElement A) → List (Bytes × Value A)
  unfolding is_changed
  greater_elements [] block_num cache = []
  greater_elements (address ∷ rest) block_num cache =
      let later = greater_elements rest block_num cache in
      elim (find address cache) [
        | none ↦ later
        | some e ↦ if is_changed block_num e then (address, e.value) ∷ later else later
      ]

  pub find_greater_elements : List Bytes → ℕ → LocalCacheInternal A → BatchResults A
  unfolding greater_elements
  find_greater_elements addresses block_num c = record {
    elements = greater_elements addresses block_num c.cache;
    last_block_num = c.last_block_num;
  }
