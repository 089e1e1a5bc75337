-- ===== src/BlockChain/AddBlock.antt =====
-- `addBlock` of src/BlockChain.cpp, on every block without a number.
use node_infrastructure_torr.Prelude.{
  ℕ, ◌+◌, ◌-◌, ◌^◌, ◌<◌, ◌≤◌, ◌≡◌, refl, sym, ap, ◌∙◌, ◌⊎◌, inl, inr, arith, true, false, none,
  some, length, get_elem?, get_elem?-lt, is_empty, Map, find, erase, Bool-cases, Option-cases, ups,
  empty_hash, already_exists, Error,
}
use node_infrastructure_torr.BlockInfo.Records.{BlockHeader}
use node_infrastructure_torr.BlockChain.{
  BlockChain, returned, thrown, add_without_calc, remove_block, roll_back, calc_blockchain,
  add_block,
}
use node_infrastructure_torr.BlockChain.Invariant.{IsIndexed, extended}
use node_infrastructure_torr.BlockChain.NewBlock.{
  IsParentNumber, IsNew, added, calc_new_accepts, calc_new_refuses, calc_orphan,
}

-- The parent of `b` is the last block; or nothing is known of the parent, and the chain is the
-- genesis block alone.
abbrev pub IsAcceptable : BlockChain → BlockHeader → Type 0
IsAcceptable bc b =
    (get_elem? bc.hashes (length bc.hashes - 1) ≡ some b.prev_hash)
    ⊎ ((find b.prev_hash bc.blocks ≡ none) × (length bc.hashes ≡ 1))

parent_number :
    (bc : BlockChain) (b : BlockHeader)
    → IsIndexed bc
    → (n : ℕ) × IsParentNumber bc b n
      × (1 + n ≤ length bc.hashes)
      × (1 + n ≡ length bc.hashes → IsAcceptable bc b)
parent_number bc b v = elim (Option-cases (find b.prev_hash bc.blocks)) [
  | inl e ↦ (0, inr (e, refl), v.started, λ h. inr (e, sym h))
  | inr (p, e) ↦
      let (n, z, at, _) = v.placed b.prev_hash p e in
      (
        n,
        inl (p, e, z),
        omega (arith, get_elem?-lt bc.hashes n at),
        λ h. inl (ap (get_elem? bc.hashes) (omega arith) ∙ at),
      )
]

removes :
    (bc : BlockChain) (b : BlockHeader)
    → is_empty b.hash ≡ false
    → remove_block bc b ≡ returned tt (record bc { blocks = erase b.hash bc.blocks })
unfolding remove_block
removes bc b named = rw named

-- With the map of `bc` restored by the removal.
roll_back_restores :
    (bc : BlockChain) (b : BlockHeader) (e : Error) (blocks : Map BlockHeader)
    → is_empty b.hash ≡ false
    → erase b.hash blocks ≡ bc.blocks
    → roll_back b (thrown e (record bc { blocks = blocks })) ≡ thrown e bc
unfolding roll_back
roll_back_restores bc b e blocks named r =
    rw (removes (record bc { blocks = blocks }) b named, roll_back)
      (ap (λ (m : Map BlockHeader). thrown e (record bc { blocks = m })) r)

module _ (bc : BlockChain) (b : BlockHeader) where
  adds :
      is_empty b.hash ≡ false
      → find b.hash bc.blocks ≡ none
      → add_without_calc bc b ≡ returned false (record bc { blocks = added bc b })
  unfolding add_without_calc
  adds named fresh = rw (named, fresh)

  add_block_calculates :
      is_empty b.hash ≡ false
      → find b.hash bc.blocks ≡ none
      → add_block bc b ≡ roll_back b (calc_blockchain (record bc { blocks = added bc b }) b.hash)
  unfolding add_block
  add_block_calculates named fresh = rw (adds named fresh, add_block)

  add_block_nameless : is_empty b.hash ≡ true → add_block bc b ≡ thrown empty_hash bc
  unfolding add_block add_without_calc
  add_block_nameless e = ground arith

  add_block_known :
      {h : BlockHeader}
      → is_empty b.hash ≡ false
      → find b.hash bc.blocks ≡ some h
      → add_block bc b ≡ thrown already_exists bc
  unfolding add_block add_without_calc
  add_block_known named e = ground arith

  -- On a consistently numbered chain of fewer than 2 ^ 64 blocks, a new block, with a hash, without
  -- a number and with the hash of a parent, gets the next number and becomes the last if its parent
  -- is the last of the chain. So does such a block of which no parent is known, where the chain is
  -- the genesis block alone.
  pub add_block_accepts :
      IsIndexed bc
      → length bc.hashes < 2 ^ 64
      → IsNew bc b
      → IsAcceptable bc b
      → add_block bc b ≡ returned (length bc.hashes) (extended bc b)
  unfolding roll_back
  add_block_accepts v short new accepted =
      add_block_calculates new.named new.fresh ∙ ap (roll_back b) (by_parent accepted)
    where
      by_parent :
          IsAcceptable bc b
          → calc_blockchain (record bc { blocks = added bc b }) b.hash
            ≡ returned (length bc.hashes) (extended bc b)
      by_parent (inl last) =
          let (p, e, z) = v.filled (length bc.hashes - 1) b.prev_hash last in
          calc_new_accepts bc b new (length bc.hashes - 1) (inl (p, e, z))
            (omega (arith, v.started)) (omega (arith, v.started))
      by_parent (inr (e, l)) =
          calc_new_accepts bc b new 0 (inr (e, refl)) (omega arith) (omega arith)

  refuses_new :
      IsIndexed bc
      → length bc.hashes < 2 ^ 64
      → IsNew bc b
      → ¬ (IsAcceptable bc b)
      → add_block bc b ≡ thrown ups bc
  refuses_new v short new refused =
      let (n, parent, bound, acceptable) = parent_number bc b v in
      let (blocks, e, r) =
        calc_new_refuses bc b new n parent (omega (arith, bound)) (λ h. refused (acceptable h)) in
      add_block_calculates new.named new.fresh
      ∙ ap (roll_back b) e
      ∙ roll_back_restores bc b ups blocks new.named r

  -- On a consistently numbered chain of fewer than 2 ^ 64 blocks, any other block without a number
  -- is refused by an exception that leaves the chain as it was.
  pub add_block_refuses :
      IsIndexed bc
      → length bc.hashes < 2 ^ 64
      → b.block_number ≡ none
      → ¬ (IsNew bc b × IsAcceptable bc b)
      → (e : Error) × (add_block bc b ≡ thrown e bc)
  add_block_refuses v short unset refused = elim (Bool-cases (is_empty b.hash)) [
    | inl p ↦ (empty_hash, add_block_nameless p)
    | inr named ↦ elim (Option-cases (find b.hash bc.blocks)) [
      | inr (h, p) ↦ (already_exists, add_block_known named p)
      | inl fresh ↦ elim (Bool-cases (is_empty b.prev_hash)) [
        | inl p ↦
            let (blocks, e, r) = calc_orphan bc b named fresh unset p in
            (
              empty_hash,
              add_block_calculates named fresh
                  ∙ ap (roll_back b) e
                  ∙ roll_back_restores bc b empty_hash blocks named r,
            )
        | inr parented ↦
            let new : IsNew bc b = record {
              named = named;
              fresh = fresh;
              unset = unset;
              parented = parented;
            } in
            (ups, refuses_new v short new (λ a. refused (new, a)))
      ]
    ]
  ]
