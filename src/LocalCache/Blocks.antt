-- ===== src/LocalCache/Blocks.antt =====
-- Blocks that come and go: `setTransactions`, `addTransactions` and `removeLastTransactions` of
-- src/Cache/LocalCache.cpp keep the infos of an address newest first, and the removal undoes the
-- addition of a block.
use mathlib.Core.List.{reverse_aux}
use node_infrastructure_torr.Prelude.{
  ℕ, ◌∙◌, ◌≤◌, ◌≡◌, ◌≢◌, refl, ◌⊎◌, inl, inr, arith, List, [], ◌∷◌, ◌++◌, some, leb, le→leb, ok,
  ◌>>=◌, chain_ok, Bytes, find, assign, find-assign_self, All, All-map, Bool-cases, Option-cases,
  assign-assign,
}
use node_infrastructure_torr.BlockInfo.Transactions.{back}
use node_infrastructure_torr.BlockInfo.Transactions.MaxBlock.{IsAscending, IsDescending, below_last}
use node_infrastructure_torr.LocalCache.{full, LocalCacheElement, LocalCacheInternal, next_num}
use node_infrastructure_torr.LocalCache.Infos.{
  newest_first, skip_block, add_infos, remove_last_infos, add_to_value, remove_last_of_value,
}

module _ {ℓ} {A : Type ℓ} (number : A → ℕ) where
  -- What `std::reverse` has turned is in `acc`.
  turned-IsDescending :
      (l acc : List A)
      → IsAscending number l
      → IsDescending number acc
      → All (λ u. All (λ t. number u ≤ number t) l) acc
      → IsDescending number (reverse_aux l acc)
  turned-IsDescending [] acc i d a = d
  turned-IsDescending (t ∷ rest) acc (i, j) d a =
      turned-IsDescending rest (t ∷ acc) j (All-map acc (λ u h. h.0) a, d)
        (i, All-map acc (λ u h. h.1) a)

  equal-IsDescending : (n : ℕ) (l : List A) → All (λ u. number u ≡ n) l → IsDescending number l
  equal-IsDescending n [] a = tt
  equal-IsDescending n (t ∷ rest) (e, a) =
      (All-map rest (λ u h. omega arith) a, equal-IsDescending n rest a)

  between :
      (n : ℕ) (l : List A)
      → All (λ u. n ≤ number u) l
      → All (λ u. number u ≤ n) l
      → All (λ u. number u ≡ n) l
  between n [] p q = tt
  between n (t ∷ rest) (p, ps) (q, qs) = (omega arith, between n rest ps qs)

  back_le :
      (n : ℕ) (t : A) (rest : List A)
      → number t ≤ n
      → All (λ u. number u ≤ n) rest
      → number (back t rest) ≤ n
  back_le n t [] h a = h
  back_le n t (u ∷ rest) h (k, a) = back_le n u rest k a

  -- A list in the order of the blocks, in either direction, is stored newest first.
  pub newest_first-IsDescending :
      (l : List A)
      → IsAscending number l ⊎ IsDescending number l
      → IsDescending number (newest_first number l)
  unfolding newest_first
  newest_first-IsDescending [] o = tt
  newest_first-IsDescending (t ∷ rest) (inl i) =
      elim (Bool-cases (leb (number (back t rest)) (number t))) [
        | inl e ↦ rw e (
            equal-IsDescending (number t) (t ∷ rest) (
              between (number t) (t ∷ rest) (omega arith, i.0)
                (All-map (t ∷ rest) (λ u h. ground (arith, e)) (below_last number t rest i))))
        | inr e ↦ rw e (turned-IsDescending (t ∷ rest) [] i tt tt)
      ]
  newest_first-IsDescending (t ∷ rest) (inr d) =
      rw (le→leb (number (back t rest)) (number t) (back_le (number t) t rest (omega arith) d.0)) d

  -- The head of the list is of the block, and nothing behind the skipped infos that is skipped.
  pub skip_block-append :
      (block_num : ℕ) (l rest : List A)
      → All (λ t. number t ≡ block_num) l
      → skip_block number block_num (l ++ rest) ≡ skip_block number block_num rest
  unfolding skip_block
  skip_block-append n [] rest a = refl
  skip_block-append n (t ∷ l) rest (e, a) = ground (arith, skip_block-append n l rest a)

  skip_block_none :
      (block_num : ℕ) (l : List A)
      → All (λ t. number t ≢ block_num) l
      → skip_block number block_num l ≡ l
  unfolding skip_block
  skip_block_none n [] a = refl
  skip_block_none n (t ∷ rest) (e, a) = ground arith

  add_infos_found :
      (a : Bytes) (l txs : List A) (e : LocalCacheElement A) (c : LocalCacheInternal A)
      → find a c.cache ≡ some e
      → e.value ≡ full txs
      → add_infos number a l c
        ≡ record c { cache = assign a (record e { value = full (l ++ txs) }) c.cache }
  unfolding add_infos add_to_value
  add_infos_found a l txs e c f g = ground (arith, f, g)

  remove_last_infos_found :
      (a : Bytes) (t : A) (rest : List A) (e : LocalCacheElement A) (c : LocalCacheInternal A)
      → find a c.cache ≡ some e
      → e.value ≡ full (t ∷ rest)
      → remove_last_infos number a c
        ≡ ok (record c {
          cache =
              assign a
                (record e {
                  value = full (skip_block number (number t) (t ∷ rest));
                  block_unkles_or_new_num = next_num c.last_block_num;
                })
                c.cache;
        })
  unfolding remove_last_infos remove_last_of_value
  remove_last_infos_found a t rest e c f g = ground (arith, f, g)

  -- Where the address has an element with a list of infos, none of them of a block, adding a list of
  -- infos of that block that is not empty and then removing the last block returns, and leaves the
  -- cache as it was, the list included, but for the number of the element, which is then that of
  -- the block behind the last.
  pub remove-add :
      (a : Bytes) (t : A) (block txs : List A) (e : LocalCacheElement A) (c : LocalCacheInternal A)
      → find a c.cache ≡ some e
      → e.value ≡ full txs
      → All (λ u. number u ≡ number t) block
      → All (λ u. number u ≢ number t) txs
      → remove_last_infos number a (add_infos number a (t ∷ block) c)
        ≡ ok (record c {
          cache =
              assign a (record e { block_unkles_or_new_num = next_num c.last_block_num }) c.cache;
        })
  remove-add a t block txs e c f g same other =
      let added = record e { value = full ((t ∷ block) ++ txs) } in
      let skipped : skip_block number (number t) ((t ∷ block) ++ txs) ≡ txs =
        skip_block-append (number t) (t ∷ block) txs (refl, same)
        ∙ skip_block_none (number t) txs other in
      rw (add_infos_found a (t ∷ block) txs e c f g) (
        rw
          (remove_last_infos_found a t (block ++ txs) added
            (record c { cache = assign a added c.cache }) (find-assign_self a added c.cache) refl)
          (rw (skipped, assign-assign) (ground (arith, g))))

  pub add_infos-find :
      (a : Bytes) (l : List A) (e : LocalCacheElement A) (c : LocalCacheInternal A)
      → find a c.cache ≡ some e
      → find a (add_infos number a l c).cache
        ≡ some (record e { value = add_to_value number l e.value })
  unfolding add_infos
  add_infos-find a l e c f =
      ground
        (arith, f, find-assign_self a (record e { value = add_to_value number l e.value }) c.cache)

  removed_find :
      (a : Bytes) (e : LocalCacheElement A) (c : LocalCacheInternal A) {c' : LocalCacheInternal A}
      → (do
        value ← remove_last_of_value number e.value
        ok (record c {
          cache =
              assign a
                (record e { value = value; block_unkles_or_new_num = next_num c.last_block_num })
                c.cache;
        }))
        ≡ ok c'
      → (d : LocalCacheElement A) × (find a c'.cache ≡ some d)
        × (d.block_unkles_or_new_num ≡ next_num c.last_block_num)
  removed_find a e c {c' = c'} r =
      let (w, f, g) = chain_ok (remove_last_of_value number e.value) _ r in
      let new = record e { value = w; block_unkles_or_new_num = next_num c.last_block_num } in
      (new, ground (arith, g, find-assign_self a new c.cache), refl)

  pub remove_last_infos-find :
      (a : Bytes) (c : LocalCacheInternal A) {c' : LocalCacheInternal A}
      → remove_last_infos number a c ≡ ok c'
      → (e : LocalCacheElement A) × (find a c'.cache ≡ some e)
        × (e.block_unkles_or_new_num ≡ next_num c.last_block_num)
  unfolding remove_last_infos
  remove_last_infos-find a c {c' = c'} r = elim (Option-cases (find a c.cache)) [
    | inl miss ↦ absurd (cc (rw (miss, remove_last_infos) at r))
    | inr (e, hit) ↦ removed_find a e c (rw (hit, remove_last_infos) at r)
  ]
