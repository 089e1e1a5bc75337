-- ===== src/LocalCache/Evict.antt =====
-- What `addElement` of src/Cache/LocalCache.cpp evicts.
use node_infrastructure_torr.Prelude.{
  ℕ, ◌≤◌, ◌≡◌, ◌≢◌, refl, min, arith, Bool, false, List, [], ◌∷◌, none, some, if◌then◌else◌, ok,
  Bytes, bytes_eq_iff, Map, find, length, All,
}
use node_infrastructure_torr.Heap.{Heap}
use node_infrastructure_torr.Heap.Reduce.{among, IsReduced, reduce_to_max-IsReduced}
use node_infrastructure_torr.LocalCache.{
  LocalCacheInternal, disabled_cache, without_limitation, remove_elements, add_element_internal,
  add_cached,
}
use node_infrastructure_torr.LocalCache.Valid.{IsValid, internal_kept, remove_elements-IsRemoved}

module _ {ℓ} {A : Type ℓ} (number : A → ℕ) where
  -- The limit is a limit.
  abbrev pub IsLimited : LocalCacheInternal A → Type 0
  IsLimited c =
      (c.max_count_elements ≢ disabled_cache) × (c.max_count_elements ≢ without_limitation)

  evicted :
      (c : LocalCacheInternal A) (removed : List Bytes) (heap : Heap) (c' : LocalCacheInternal A)
      → c'.heap ≡ heap
      → IsReduced c.max_count_elements c.heap.keys removed heap
      → (length c'.heap.keys ≡ min c.max_count_elements (length c.heap.keys))
        × ((b : Bytes)
            → find b c'.heap.keys ≡ (if among b removed then none else find b c.heap.keys))
        × All
            (λ r.
              (t : ℕ) × (find r c.heap.keys ≡ some t)
              × ((k : Bytes) (u : ℕ) → find k c'.heap.keys ≡ some u → t ≤ u))
            removed
  evicted c removed heap c' e r = rw e (r.sized, r.found, r.oldest)

  -- On a valid cache with a limit, `addElement` returns a cache with the new element from which some
  -- addresses were removed: exactly those that its heap gave up, so that they are read addresses and
  -- no element of them stays. Each was read not later than any address that was read and stays; of
  -- the addresses that were read no more than the limit stay, and all if they were no more.
  pub add_cached-evicts :
      (a : Bytes) (value : List A) (is_sync : Bool) (c : LocalCacheInternal A)
      → IsValid c
      → IsLimited c
      → (removed : List Bytes) × (c' : LocalCacheInternal A) × (add_cached number a value is_sync c
          ≡ ok c')
        × (length c'.heap.keys ≡ min c.max_count_elements (length c.heap.keys))
        × ((b : Bytes)
            → find b c'.heap.keys ≡ (if among b removed then none else find b c.heap.keys))
        × ((b : Bytes)
            → find b c'.cache ≡ (
                if among b removed
                then none
                else find b (add_element_internal number a value is_sync false c).cache))
        × All
            (λ r.
              (t : ℕ) × (find r c.heap.keys ≡ some t)
              × ((k : Bytes) (u : ℕ) → find k c'.heap.keys ≡ some u → t ≤ u))
            removed
  unfolding add_cached
  add_cached-evicts a value is_sync c v (on, limited) =
      let c' = add_element_internal number a value is_sync false c in
      let kept = internal_kept number a value is_sync false c in
      let (removed, heap, e, r) =
        reduce_to_max-IsReduced c.max_count_elements c.heap (omega arith) v.synced in
      let m = remove_elements-IsRemoved removed (record c' { heap = heap }) in
      let (sized, gone, oldest) =
        evicted c removed heap (remove_elements removed (record c' { heap = heap })) m.heap r in
      (
        removed,
        remove_elements removed (record c' { heap = heap }),
        ground (arith, e, kept),
        sized,
        gone,
        m.cached,
        oldest,
      )

  among_read :
      (b : Bytes) (m : Map ℕ) (P : Bytes → ℕ → Type 0) (l : List Bytes)
      → All (λ r. (t : ℕ) × (find r m ≡ some t) × P r t) l
      → find b m ≡ none
      → among b l ≡ false
  among_read b m P [] a h = refl
  among_read b m P (r ∷ rest) ((t, f, p), a) h =
      ground (arith, bytes_eq_iff r b, among_read b m P rest a h)

  -- On a valid cache with a limit, `addElement` evicts no address that was never read, however many
  -- elements the cache has.
  pub add_cached-keeps :
      (a : Bytes) (value : List A) (is_sync : Bool) (c : LocalCacheInternal A)
      → IsValid c
      → IsLimited c
      → (c' : LocalCacheInternal A) × (add_cached number a value is_sync c ≡ ok c')
        × ((b : Bytes)
            → find b c.heap.keys ≡ none
            → find b c'.cache ≡ find b (add_element_internal number a value is_sync false c).cache)
  add_cached-keeps a value is_sync c v limited =
      let (removed, c', e, _, _, f, o) = add_cached-evicts a value is_sync c v limited in
      (
        c',
        e,
        λ b h.
            rw
              (
                f b,
                among_read b c.heap.keys
                    (λ r t. (k : Bytes) (u : ℕ) → find k c'.heap.keys ≡ some u → t ≤ u) removed o h,
              )
              refl,
      )
