-- ===== src/BlockChain/NewBlock.antt =====
-- `calcBlockchain` from a block that has just been added.
use node_infrastructure_torr.Prelude.{
  ℕ, suc, ◌+◌, ◌%◌, ◌^◌, ◌<◌, ◌≡◌, ◌≢◌, refl, sym, ap, ◌∙◌, ◌⊎◌, inl, inr, arith, true, false,
  Bytes, [], ◌∷◌, ◌++◌, none, some, length, is_empty, bytes_eq, bytes_eq_iff, Map, find, assign,
  erase, find-assign_self, find-assign_ne, length-assign-pos, pred_of_pos, erase-assign,
  erase-absent, assign-assign, Bool-cases, ups, empty_hash,
}
use node_infrastructure_torr.BlockInfo.Records.{BlockHeader}
use node_infrastructure_torr.BlockChain.{
  BlockChain, returned, thrown, with_number, walk, renumber, after_walk, calc_blockchain,
}
use node_infrastructure_torr.BlockChain.Walk.{
  walk_stops, walk_breaks, walk_refuses, walk_goes_on, renumber_goes_on, renumber_throws,
  after_walk_stopped, calc_blockchain_walks,
}
use node_infrastructure_torr.BlockChain.Invariant.{extended, other_hash}

-- The number of the parent of `b`, and 0 if `bc` does not have the parent.
abbrev pub IsParentNumber : BlockChain → BlockHeader → ℕ → Type 0
IsParentNumber bc b n =
    ((p : BlockHeader) × (find b.prev_hash bc.blocks ≡ some p) × (p.block_number ≡ some n))
    ⊎ ((find b.prev_hash bc.blocks ≡ none) × (n ≡ 0))

-- A block to add: it has a hash that `bc` does not have, no number, and the hash of a parent.
pub record IsNew (bc : BlockChain) (b : BlockHeader) : Type 0 where
  pub named : is_empty b.hash ≡ false
  pub fresh : find b.hash bc.blocks ≡ none
  pub unset : b.block_number ≡ none
  pub parented : is_empty b.prev_hash ≡ false

-- The map with the new block, as it was given and as the first round of the loop leaves it.
abbrev pub added : BlockChain → BlockHeader → Map BlockHeader
added bc b = assign b.hash b bc.blocks

abbrev walked : BlockChain → BlockHeader → Map BlockHeader
walked bc b = assign b.hash (with_number b 0) (added bc b)

module _ (bc : BlockChain) (b : BlockHeader) (new : IsNew bc b) where
  here : find b.hash (added bc b) ≡ some b
  here = find-assign_self b.hash b bc.blocks

  -- The parent is found, be it in the chain or the block itself.
  walk_to :
      (p : BlockHeader) (n : ℕ)
      → find b.prev_hash (walked bc b) ≡ some p
      → p.block_number ≡ some n
      → after_walk bc.hashes (walk (suc (length (added bc b))) b.hash 0 [] (added bc b))
        ≡ renumber
            ((1 + n) % 2 ^ 64)
            (b.hash ∷ [])
            (record { blocks = walked bc b; hashes = bc.hashes })
  walk_to p n f z =
      let (m, e) = pred_of_pos (length (added bc b)) (length-assign-pos b.hash b bc.blocks) in
      ap (after_walk bc.hashes) (
        walk_goes_on (length (added bc b)) b.hash 0 [] (added bc b) here new.unset new.parented f
        ∙ ap (λ (l : ℕ). walk l b.prev_hash 1 (b.hash ∷ []) (walked bc b)) e
        ∙ walk_stops m b.prev_hash 1 (b.hash ∷ []) (walked bc b) f z)
      ∙ after_walk_stopped bc.hashes b.prev_hash 1 (b.hash ∷ []) (walked bc b) f z

  -- The parent is not found: the loop breaks at the block itself, which has the number 0 by then.
  walk_to_itself :
      find b.prev_hash (walked bc b) ≡ none
      → after_walk bc.hashes (walk (suc (length (added bc b))) b.hash 0 [] (added bc b))
        ≡ renumber 1 (b.hash ∷ []) (record { blocks = walked bc b; hashes = bc.hashes })
  walk_to_itself f =
      ap (after_walk bc.hashes)
        (walk_breaks (length (added bc b)) b.hash 0 [] (added bc b) here new.unset new.parented f)
      ∙ after_walk_stopped bc.hashes b.hash 1 (b.hash ∷ []) (walked bc b)
          (find-assign_self b.hash (with_number b 0) (added bc b)) refl

  find_other : (j : Bytes) → bytes_eq b.hash j ≡ false → find j (walked bc b) ≡ find j bc.blocks
  find_other j e =
      find-assign_ne b.hash j (with_number b 0) (added bc b) e
      ∙ find-assign_ne b.hash j b bc.blocks e

  walk_parent :
      (n : ℕ)
      → IsParentNumber bc b n
      → after_walk bc.hashes (walk (suc (length (added bc b))) b.hash 0 [] (added bc b))
        ≡ renumber
            ((1 + n) % 2 ^ 64)
            (b.hash ∷ [])
            (record { blocks = walked bc b; hashes = bc.hashes })
  walk_parent n (inl (p, f, z)) =
      walk_to p n (find_other b.prev_hash (other_hash b.hash b.prev_hash bc.blocks new.fresh f) ∙ f)
        z
  walk_parent n (inr (f, z)) = elim (Bool-cases (bytes_eq b.hash b.prev_hash)) [
    | inl same ↦ rw z (
        walk_to (with_number b 0) 0
          (ap (λ (j : Bytes). find j (walked bc b)) (sym ((bytes_eq_iff b.hash b.prev_hash).0 same))
            ∙ find-assign_self b.hash (with_number b 0) (added bc b))
          refl)
    | inr other ↦ rw z (walk_to_itself (find_other b.prev_hash other ∙ f))
  ]

  module _ (n : ℕ) (parent : IsParentNumber bc b n) (short : 1 + n < 2 ^ 64) where
    calc_new :
        calc_blockchain (record bc { blocks = added bc b }) b.hash
        ≡ renumber (1 + n) (b.hash ∷ []) (record { blocks = walked bc b; hashes = bc.hashes })
    calc_new =
        calc_blockchain_walks (record bc { blocks = added bc b }) b.hash new.named here
        ∙ walk_parent n parent
        ∙ ap
            (λ (a : ℕ).
              renumber a (b.hash ∷ []) (record { blocks = walked bc b; hashes = bc.hashes }))
            (omega arith)

    -- On the tip, or on a missing parent where the chain is the genesis block alone.
    pub calc_new_accepts :
        1 + n ≡ length bc.hashes
        → calc_blockchain (record bc { blocks = added bc b }) b.hash
          ≡ returned (length bc.hashes) (extended bc b)
    unfolding renumber
    calc_new_accepts e =
        calc_new
        ∙ renumber_goes_on (1 + n) b.hash [] _
            (find-assign_self b.hash (with_number b 0) (added bc b)) refl (1 + n) (omega arith) e
        ∙ ap (λ (a : ℕ). returned a (with_last a)) e
        ∙ ap (λ (m : Map BlockHeader). returned (length bc.hashes) (with_blocks m))
            (assign-assign b.hash (with_number b 0) (with_number b (length bc.hashes)) (added bc b)
              ∙ assign-assign b.hash b (with_number b (length bc.hashes)) bc.blocks)
      where
        with_blocks : Map BlockHeader → BlockChain
        with_blocks m = record { blocks = m; hashes = bc.hashes ++ (b.hash ∷ []) }

        with_last : ℕ → BlockChain
        with_last a = with_blocks (assign b.hash (with_number b a) (walked bc b))

    pub calc_new_refuses :
        1 + n ≢ length bc.hashes
        → (blocks : Map BlockHeader) × (calc_blockchain (record bc { blocks = added bc b }) b.hash
            ≡ thrown ups (record bc { blocks = blocks }))
          × (erase b.hash blocks ≡ bc.blocks)
    calc_new_refuses e = (
      assign b.hash (with_number b (1 + n)) (walked bc b),
      calc_new
          ∙ renumber_throws (1 + n) b.hash [] _
              (find-assign_self b.hash (with_number b 0) (added bc b)) refl (1 + n) (omega arith)
              (ground arith),
      erase-assign b.hash _ (walked bc b)
          ∙ erase-assign b.hash _ (added bc b)
          ∙ erase-assign b.hash b bc.blocks
          ∙ erase-absent b.hash bc.blocks new.fresh,
    )

-- A block without the hash of a parent: the loop throws in its first round.
pub calc_orphan :
    (bc : BlockChain) (b : BlockHeader)
    → is_empty b.hash ≡ false
    → find b.hash bc.blocks ≡ none
    → b.block_number ≡ none
    → is_empty b.prev_hash ≡ true
    → (blocks : Map BlockHeader) × (calc_blockchain (record bc { blocks = added bc b }) b.hash
        ≡ thrown empty_hash (record bc { blocks = blocks }))
      × (erase b.hash blocks ≡ bc.blocks)
unfolding after_walk
calc_orphan bc b named fresh unset e = (
  walked bc b,
  calc_blockchain_walks (record bc { blocks = added bc b }) b.hash named
        (find-assign_self b.hash b bc.blocks)
      ∙ ap (after_walk bc.hashes) (
          walk_refuses (length (added bc b)) b.hash 0 [] (added bc b)
            (find-assign_self b.hash b bc.blocks) unset e),
  erase-assign b.hash _ (added bc b)
      ∙ erase-assign b.hash b bc.blocks
      ∙ erase-absent b.hash bc.blocks fresh,
)
