-- ===== src/LocalCache/Greater.antt =====
-- `findGreaterElements` of src/Cache/LocalCache.cpp, behind the methods that change an element.
use node_infrastructure_torr.Prelude.{
  ℕ, suc, ◌+◌, ◌^◌, ◌≤◌, ◌<◌, ◌≡◌, arith, true, List, [], ◌∷◌, ◌++◌, some, lt→ltb, ok, Bytes,
  bytes_eq, bytes_eq_iff, Map, find, get_elem?, Bool-cases, Option-cases, inl, inr,
}
use node_infrastructure_torr.BlockInfo.Transactions.MaxBlock.{
  is_greater_first, get_max_block_number_first,
}
use node_infrastructure_torr.Heap.Reduce.{among}
use node_infrastructure_torr.LocalCache.{
  Value, max_number, full, LocalCacheElement, LocalCacheInternal, next_num, is_value_greater,
  is_changed, greater_elements, find_greater_elements,
}
use node_infrastructure_torr.LocalCache.Blocks.{add_infos-find, remove_last_infos-find}
use node_infrastructure_torr.LocalCache.Infos.{add_infos, remove_last_infos, add_to_value}

module _ {ℓ} {A : Type ℓ} (number : A → ℕ) where
  -- The answer has the address with its value.
  abbrev pub Reports : List Bytes → ℕ → LocalCacheInternal A → Bytes → Value A → Type ℓ
  Reports addresses n c a w =
      (i : ℕ) × (get_elem? (find_greater_elements number addresses n c).elements i ≡ some (a, w))

  reported :
      (addresses : List Bytes) (n : ℕ) (m : Map (LocalCacheElement A)) (a : Bytes)
      (e : LocalCacheElement A)
      → among a addresses ≡ true
      → find a m ≡ some e
      → is_changed number n e ≡ true
      → (i : ℕ) × (get_elem? (greater_elements number addresses n m) i ≡ some (a, e.value))
  unfolding greater_elements
  reported [] n m a e h f g = absurd (cc h)
  reported (b ∷ rest) n m a e h f g = elim (Bool-cases (bytes_eq b a)) [
    | inl same ↦ let p = (bytes_eq_iff b a).0 same in (0, ground (arith, p, f, g))
    | inr other ↦
        let (i, k) = reported rest n m a e (ground (arith, h)) f g in
        elim (Option-cases (find b m)) [
          | inl miss ↦ (i, rw (miss, greater_elements) k)
          | inr (d, hit) ↦ elim (Bool-cases (is_changed number n d)) [
            | inl yes_changed ↦ (suc i, ground (arith, hit, yes_changed, k))
            | inr same ↦ (i, ground (arith, hit, same, k))
          ]
        ]
  ]

  added_greater :
      (n : ℕ) (t : A) (block : List A) (old : Value A)
      → n < number t
      → is_value_greater number (add_to_value number (t ∷ block) old) n ≡ true
  unfolding is_value_greater add_to_value
  added_greater n t block (max_number k) h =
      lt→ltb n _ (omega (arith, get_max_block_number_first number t block))
  added_greater n t block (full txs) h = is_greater_first number t (block ++ txs) n h

  added_changed :
      (n : ℕ) (t : A) (block : List A) (e : LocalCacheElement A)
      → n < number t
      → is_changed number n (record e { value = add_to_value number (t ∷ block) e.value }) ≡ true
  unfolding is_changed
  added_changed n t block e h = ground (arith, added_greater n t block e.value h)

  marked_changed :
      (n : ℕ) (e : LocalCacheElement A) (last : ℕ)
      → e.block_unkles_or_new_num ≡ next_num last
      → n ≤ last
      → last + 1 < 2 ^ 64
      → is_changed number n e ≡ true
  unfolding is_changed
  marked_changed n e last h le below = ground arith

  -- Behind `addTransactions` of a list that is not empty and whose first info is of a later block
  -- than the one asked for, `findGreaterElements` reports each address of the question to which the
  -- list was added, with its new value.
  pub find_greater_elements-add_infos :
      (addresses : List Bytes) (n : ℕ) (a : Bytes) (t : A) (block : List A)
      (e : LocalCacheElement A) (c : LocalCacheInternal A)
      → among a addresses ≡ true
      → find a c.cache ≡ some e
      → n < number t
      → Reports addresses n
          (add_infos number a (t ∷ block) c)
          a
          (add_to_value number (t ∷ block) e.value)
  unfolding find_greater_elements
  find_greater_elements-add_infos addresses n a t block e c h f lt =
      let new = record e { value = add_to_value number (t ∷ block) e.value } in
      reported addresses n (add_infos number a (t ∷ block) c).cache a new h
        (add_infos-find number a (t ∷ block) e c f) (added_changed n t block e lt)

  -- Behind a removal of the last block of an address that returned, `findGreaterElements` reports
  -- the address, with the value that is left, to each question that has the address and asks for
  -- a block that is not behind the last one of the cache, where the number of that is below the
  -- largest `size_t`.
  pub find_greater_elements-remove_last :
      (addresses : List Bytes) (n : ℕ) (a : Bytes) (c : LocalCacheInternal A)
      {c' : LocalCacheInternal A}
      → remove_last_infos number a c ≡ ok c'
      → among a addresses ≡ true
      → n ≤ c.last_block_num
      → c.last_block_num + 1 < 2 ^ 64
      → (e : LocalCacheElement A) × (find a c'.cache ≡ some e) × Reports addresses n c' a e.value
  unfolding find_greater_elements
  find_greater_elements-remove_last addresses n a c {c' = c'} r h le below =
      let (e, f, g) = remove_last_infos-find number a c r in
      (e, f, reported addresses n c'.cache a e h f (marked_changed n e c.last_block_num g le below))
