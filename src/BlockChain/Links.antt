-- ===== src/BlockChain/Links.antt =====
-- The links of the chain of src/BlockChain.cpp: each block names the one before it.
use node_infrastructure_torr.Prelude.{
  ℕ, suc, ◌-◌, ◌^◌, ◌<◌, ◌≡◌, ◌≢◌, sym, ap, ◌∙◌, ◌⊎◌, inl, inr, arith, Bytes, [], ◌∷◌, none, some,
  length, get_elem?, get_elem?_inside, get_elem?-append, get_elem?-append_left, get_elem?-snoc,
  find, find-assign_self, find-assign_ne,
}
use node_infrastructure_torr.BlockInfo.Records.{BlockHeader}
use node_infrastructure_torr.BlockChain.{BlockChain, returned, with_number, add_block}
use node_infrastructure_torr.BlockChain.Invariant.{IsIndexed, extended, other_hash}
use node_infrastructure_torr.BlockChain.NewBlock.{IsNew}
use node_infrastructure_torr.BlockChain.AddBlock.{IsAcceptable, add_block_accepts}
use node_infrastructure_torr.BlockChain.History.{returned_extended}

-- The parent of each block but the first stands in the place before it.
pub record IsLinked (bc : BlockChain) : Type 0 where
  pub parent :
      (i : ℕ) (k : Bytes)
      → get_elem? bc.hashes (suc i) ≡ some k
      → (h : BlockHeader) × (find k bc.blocks ≡ some h) × (get_elem? bc.hashes i ≡ some h.prev_hash)

module _ (bc : BlockChain) (b : BlockHeader) (v : IsIndexed bc) where
  extended-IsLinked :
      IsNew bc b
      → get_elem? bc.hashes (length bc.hashes - 1) ≡ some b.prev_hash
      → IsLinked bc
      → IsLinked (extended bc b)
  extended-IsLinked new last linked = record {
    parent = λ i k e. elim (get_elem?-snoc bc.hashes b.hash (suc i) e) [
      | inl (p, q) ↦ (
        with_number b (length bc.hashes),
        rw q (find-assign_self b.hash (with_number b (length bc.hashes)) bc.blocks),
        get_elem?-append_left bc.hashes (b.hash ∷ []) i
            (ap (get_elem? bc.hashes) (omega arith) ∙ last),
      )
      | inr p ↦
          let (h, f, at) = linked.parent i k p in
          (
            h,
            find-assign_ne b.hash k (with_number b (length bc.hashes)) bc.blocks
                  (other_hash b.hash k bc.blocks new.fresh f)
                ∙ f,
            get_elem?-append_left bc.hashes (b.hash ∷ []) i at,
          )
    ];
  }

  -- A block without a number that `addBlock` accepts, on a consistently numbered and linked chain
  -- of fewer than 2 ^ 64 blocks, keeps the links, if the chain has the parent, or has any block
  -- behind the genesis block.
  pub add_block-IsLinked :
      (n : ℕ) (bc' : BlockChain)
      → length bc.hashes < 2 ^ 64
      → b.block_number ≡ none
      → (find b.prev_hash bc.blocks ≢ none) ⊎ (1 < length bc.hashes)
      → add_block bc b ≡ returned n bc'
      → IsLinked bc
      → IsLinked bc'
  add_block-IsLinked n bc' short unset known e linked =
      let (new, good, _, q) = returned_extended bc b v short unset e in
      rw q (extended-IsLinked new (last good) linked)
    where
      no_orphan :
          (find b.prev_hash bc.blocks ≢ none) ⊎ (1 < length bc.hashes)
          → find b.prev_hash bc.blocks ≡ none
          → length bc.hashes ≡ 1
          → ⊥
      no_orphan (inl f) p l = f p
      no_orphan (inr m) p l = omega arith

      last : IsAcceptable bc b → get_elem? bc.hashes (length bc.hashes - 1) ≡ some b.prev_hash
      last (inl at) = at
      last (inr (p, l)) = absurd (no_orphan known p l)

  -- On a consistently numbered chain that has the genesis block alone, `addBlock` accepts a new
  -- block whose parent is not known, as block number 1, and the chain is not linked after that.
  pub add_block_orphan :
      length bc.hashes ≡ 1
      → IsNew bc b
      → find b.prev_hash bc.blocks ≡ none
      → (add_block bc b ≡ returned 1 (extended bc b)) × ¬ (IsLinked (extended bc b))
  add_block_orphan l new missing = (
    add_block_accepts bc b v (omega arith) new (inr (missing, l))
        ∙ ap (λ (n : ℕ). returned n (extended bc b)) l,
    λ linked. unlinked linked,
  )
    where
      unlinked : ¬ (IsLinked (extended bc b))
      unlinked linked =
          let (h, f, at) =
            linked.parent 0 b.hash (get_elem?-append bc.hashes b.hash [] 1 (sym l)) in
          let (k, first) = get_elem?_inside bc.hashes 0 v.started in
          let (g, found, _) = v.filled 0 k first in
          let self = find-assign_self b.hash (with_number b (length bc.hashes)) bc.blocks in
          let same : with_number b (length bc.hashes) ≡ h = cc (self, f) in
          let prev : b.prev_hash ≡ h.prev_hash = ap (λ (x : BlockHeader). x.prev_hash) same in
          let left = get_elem?-append_left bc.hashes (b.hash ∷ []) 0 first in
          let key : k ≡ b.prev_hash = cc (at, left, prev) in
          cc (missing, found, ap (λ (x : Bytes). find x bc.blocks) key)
