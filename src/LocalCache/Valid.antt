-- ===== src/LocalCache/Valid.antt =====
-- The invariant of the cache in src/Cache/LocalCache.cpp, kept by each method of the base class.
use node_infrastructure_torr.Prelude.{
  ℕ, ◌≡◌, refl, inl, inr, arith, Bool, true, false, not, List, [], ◌∷◌, Option, none, some, ◌==◌,
  if◌then◌else◌, ok, Bytes, bytes_eq_iff, Map, find, assign, erase, find-assign, find-erase,
  Bool-cases, Option-cases,
}
use node_infrastructure_torr.Heap.{Heap}
use node_infrastructure_torr.Heap.Synced.{IsSynced, empty_heap-IsSynced, add_element-IsSynced}
use node_infrastructure_torr.Heap.Reduce.{among, IsReduced, reduce_to_max-IsReduced}
use node_infrastructure_torr.LocalCache.{
  Value, LocalCacheElement, LocalCacheInternal, is_member, new_cache, next_num, remove_element,
  remove_elements, mark_all, set_last_block_num, get_value_if_exist, new_element,
  add_element_internal, add_cached, add_if_no_exist, disabled_cache, without_limitation,
}

module _ {ℓ} {A : Type ℓ} where
  -- The element was not written by the thread that synchronises the chain.
  abbrev pub is_unsynced : Option (LocalCacheElement A) → Bool
  is_unsynced none = false
  is_unsynced (some e) = not e.is_sync_blockchain_thread_updated

  -- `noSyncBlockchainThreadElements` has exactly the addresses whose element is not synced, the heap
  -- is in order, and it knows of no address that the cache has not.
  pub record IsValid (c : LocalCacheInternal A) : Type 0 where
    pub marked :
        (a : Bytes)
        → is_member a c.no_sync_blockchain_thread_elements ≡ is_unsynced (find a c.cache)
    pub synced : IsSynced c.heap
    pub read : (a : Bytes) → is_member a c.heap.keys ≡ true → is_member a c.cache ≡ true

  pub new_cache-IsValid : (n : ℕ) → IsValid (new_cache {A = A} n)
  unfolding find
  new_cache-IsValid n = record {
    marked = λ a. refl;
    synced = empty_heap-IsSynced;
    read = λ a h. cc;
  }

  -- What the loop over the addresses leaves.
  pub record IsRemoved (l : List Bytes) (c c' : LocalCacheInternal A) : Type ℓ where
    pub cached : (a : Bytes) → find a c'.cache ≡ (if among a l then none else find a c.cache)
    pub marks :
        (a : Bytes)
        → find a c'.no_sync_blockchain_thread_elements
          ≡ (if among a l then none else find a c.no_sync_blockchain_thread_elements)
    pub heap : c'.heap ≡ c.heap
    pub max_count_elements : c'.max_count_elements ≡ c.max_count_elements
    pub last_block_num : c'.last_block_num ≡ c.last_block_num
    pub is_save_full : c'.is_save_full ≡ c.is_save_full

  pub remove_elements-IsRemoved :
      (l : List Bytes) (c : LocalCacheInternal A) → IsRemoved l c (remove_elements l c)
  unfolding remove_elements remove_element
  remove_elements-IsRemoved [] c = record {
    cached = λ a. refl;
    marks = λ a. refl;
    heap = refl;
    max_count_elements = refl;
    last_block_num = refl;
    is_save_full = refl;
  }
  remove_elements-IsRemoved (b ∷ rest) c =
      let r = remove_elements-IsRemoved rest (remove_element b c) in
      record {
        cached = λ a. ground (arith, r.cached a, find-erase b a c.cache);
        marks = λ a. ground (arith, r.marks a, find-erase b a c.no_sync_blockchain_thread_elements);
        heap = r.heap;
        max_count_elements = r.max_count_elements;
        last_block_num = r.last_block_num;
        is_save_full = r.is_save_full;
      }

  pub find-mark_all :
      (n : ℕ) (a : Bytes) (m : Map (LocalCacheElement A))
      → find a (mark_all n m)
        ≡ elim (find a m) [ none ↦ none | some e ↦ some (record e { block_unkles_or_new_num = n }) ]
  unfolding find mark_all
  find-mark_all n a [] = refl
  find-mark_all n a ((b, e) ∷ rest) = ground (arith, find-mark_all n a rest)

  pub set_last_block_num-IsValid :
      (n : ℕ) (c : LocalCacheInternal A) → IsValid c → IsValid (set_last_block_num n c)
  unfolding set_last_block_num
  set_last_block_num-IsValid n c v = record {
    marked = λ a. ground (arith, v.marked a, find-mark_all (next_num n) a c.cache);
    synced = v.synced;
    read = λ a h. ground (arith, v.read a h, find-mark_all (next_num n) a c.cache);
  }

  -- `getValueIfExist` throws nothing: it returns the value of the element, and the cache stays as it
  -- is but for its heap.
  pub get_value_if_exist-IsValid :
      (a : Bytes) (now : ℕ) (c : LocalCacheInternal A)
      → IsValid c
      → (r : Option (Value A)) × (heap : Heap) × (get_value_if_exist a now c
          ≡ ok (r, record c { heap = heap }))
        × IsValid (record c { heap = heap })
  unfolding get_value_if_exist
  get_value_if_exist-IsValid a now c v =
      elim (Bool-cases (c.max_count_elements == disabled_cache)) [
        | inl off ↦ (none, c.heap, rw off refl, v)
        | inr on ↦ elim (Option-cases (find a c.cache)) [
          | inl e ↦ (none, c.heap, ground arith, v)
          | inr (el, e) ↦ elim (Bool-cases (c.max_count_elements == without_limitation)) [
            | inl free ↦ (some el.value, c.heap, ground arith, v)
            | inr limited ↦
                let (heap, f, g, s) = add_element-IsSynced a now c.heap v.synced in
                (
                  some el.value,
                  heap,
                  ground (arith, f),
                  record {
                    marked = v.marked;
                    synced = s;
                    read = λ b h.
                        ground
                          (arith, v.read b, g, find-assign a b now c.heap.keys, bytes_eq_iff a b);
                  },
                )
          ]
        ]
      ]

module _ {ℓ} {A : Type ℓ} (a : Bytes) (e : LocalCacheElement A) (c : LocalCacheInternal A)
    (v : IsValid c) where
  store_unsynced :
      e.is_sync_blockchain_thread_updated ≡ false
      → IsValid (record c {
        cache = assign a e c.cache;
        no_sync_blockchain_thread_elements = assign a tt c.no_sync_blockchain_thread_elements;
      })
  store_unsynced f = record {
    marked = λ b. ground (
      arith,
      v.marked b,
      find-assign a b e c.cache,
      find-assign a b tt c.no_sync_blockchain_thread_elements,
    );
    synced = v.synced;
    read = λ b h. ground (arith, v.read b, find-assign a b e c.cache);
  }

  store_synced :
      e.is_sync_blockchain_thread_updated ≡ true
      → IsValid (record c {
        cache = assign a e c.cache;
        no_sync_blockchain_thread_elements = erase a c.no_sync_blockchain_thread_elements;
      })
  store_synced f = record {
    marked = λ b. ground (
      arith,
      v.marked b,
      find-assign a b e c.cache,
      find-erase a b c.no_sync_blockchain_thread_elements,
    );
    synced = v.synced;
    read = λ b h. ground (arith, v.read b, find-assign a b e c.cache);
  }

  -- A change of an element that leaves its flag.
  pub change-IsValid :
      (old : LocalCacheElement A)
      → find a c.cache ≡ some old
      → e.is_sync_blockchain_thread_updated ≡ old.is_sync_blockchain_thread_updated
      → IsValid (record c { cache = assign a e c.cache })
  change-IsValid old f g = record {
    marked = λ b. ground (arith, v.marked b, find-assign a b e c.cache, bytes_eq_iff a b);
    synced = v.synced;
    read = λ b h. ground (arith, v.read b, find-assign a b e c.cache);
  }

module _ {ℓ} {A : Type ℓ} (number : A → ℕ) where
  pub add_element_internal-IsValid :
      (a : Bytes) (value : List A) (is_sync is_new : Bool) (c : LocalCacheInternal A)
      → IsValid c
      → IsValid (add_element_internal number a value is_sync is_new c)
  unfolding add_element_internal new_element
  add_element_internal-IsValid a value false is_new c v =
      store_unsynced a (new_element number value false is_new c) c v refl
  add_element_internal-IsValid a value true is_new c v = elim (Option-cases (find a c.cache)) [
    | inl e ↦ rw e v
    | inr (old, e) ↦ rw e (store_synced a (new_element number value true is_new c) c v refl)
  ]

  pub add_if_no_exist-IsValid :
      (a : Bytes) (getter : Bytes → List A) (is_sync is_initialized : Bool)
      (c : LocalCacheInternal A)
      → IsValid c
      → IsValid (add_if_no_exist number a getter is_sync is_initialized c)
  unfolding add_if_no_exist
  add_if_no_exist-IsValid a getter is_sync is_initialized c v =
      elim (Option-cases (find a c.cache)) [
        | inl e ↦
            rw (e, add_if_no_exist) (add_element_internal-IsValid a (getter a) is_sync true c v)
        | inr (old, e) ↦ elim (Bool-cases is_initialized) [
          | inl f ↦ rw (e, f, add_if_no_exist) v
          | inr f ↦
              rw (e, f, add_if_no_exist)
                (change-IsValid a
                  (record old { block_unkles_or_new_num = next_num c.last_block_num }) c v old e
                  refl)
        ]
      ]

  -- Behind a reduction of the heap and the loop over what it gave up.
  evict-IsValid :
      (removed : List Bytes) (heap : Heap) (c : LocalCacheInternal A)
      → IsValid c
      → IsReduced c.max_count_elements c.heap.keys removed heap
      → IsValid (remove_elements removed (record c { heap = heap }))
  evict-IsValid removed heap c v r =
      let m = remove_elements-IsRemoved removed (record c { heap = heap }) in
      record {
        marked = λ a. ground (arith, v.marked a, m.cached a, m.marks a);
        synced = rw m.heap r.synced;
        read = λ a h. ground (arith, v.read a, m.cached a, m.heap, r.found a);
      }

  pub internal_kept :
      (a : Bytes) (value : List A) (is_sync is_new : Bool) (c : LocalCacheInternal A)
      → let c' = add_element_internal number a value is_sync is_new c in
        (c'.max_count_elements ≡ c.max_count_elements)
        × (c'.heap ≡ c.heap)
        × (c'.last_block_num ≡ c.last_block_num)
        × (c'.is_save_full ≡ c.is_save_full)
  unfolding add_element_internal
  internal_kept a value is_sync is_new c = ground arith

  pub add_cached-IsValid :
      (a : Bytes) (value : List A) (is_sync : Bool) (c : LocalCacheInternal A)
      → IsValid c
      → (c' : LocalCacheInternal A) × (add_cached number a value is_sync c ≡ ok c') × IsValid c'
  unfolding add_cached
  add_cached-IsValid a value is_sync c v =
      let c' = add_element_internal number a value is_sync false c in
      let v' = add_element_internal-IsValid a value is_sync false c v in
      elim (Bool-cases (c.max_count_elements == disabled_cache)) [
        | inl off ↦ (c, rw off refl, v)
        | inr on ↦ elim (Bool-cases (c.max_count_elements == without_limitation)) [
          | inl free ↦ (c', ground arith, v')
          | inr limited ↦
              let (removed, heap, e, r) =
                reduce_to_max-IsReduced c'.max_count_elements c'.heap
                  (ground (arith, internal_kept a value is_sync false c)) v'.synced in
              (
                remove_elements removed (record c' { heap = heap }),
                ground (arith, e),
                evict-IsValid removed heap c' v' r,
              )
        ]
      ]
