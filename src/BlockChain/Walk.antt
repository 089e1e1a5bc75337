-- ===== src/BlockChain/Walk.antt =====
-- One round of the loops of `calcBlockchain`, case by case.
use node_infrastructure_torr.Prelude.{
  ℕ, suc, ◌+◌, ◌-◌, ◌%◌, ◌^◌, ◌≡◌, arith, true, false, Bytes, List, [], ◌∷◌, ◌++◌, none, some,
  length, is_empty, Map, find, assign, ◌==◌, empty_hash, ups,
}
use node_infrastructure_torr.BlockInfo.Records.{BlockHeader}
use node_infrastructure_torr.BlockChain.{
  BlockChain, thrown, with_number, stopped, refused, walk, renumber, after_walk, calc_blockchain,
}

module _ (fuel : ℕ) (bh : Bytes) (curr_num : ℕ) (processed : List Bytes) (blocks : Map BlockHeader)
    {h : BlockHeader} (here : find bh blocks ≡ some h) where
  pub walk_stops :
      {n : ℕ}
      → h.block_number ≡ some n
      → walk (suc fuel) bh curr_num processed blocks ≡ stopped bh curr_num processed blocks
  unfolding walk
  walk_stops z = ground arith

  pub walk_refuses :
      h.block_number ≡ none
      → is_empty h.prev_hash ≡ true
      → walk (suc fuel) bh curr_num processed blocks
        ≡ refused empty_hash (assign bh (with_number h curr_num) blocks)
  unfolding walk
  walk_refuses z e = ground arith

  pub walk_breaks :
      h.block_number ≡ none
      → is_empty h.prev_hash ≡ false
      → find h.prev_hash (assign bh (with_number h curr_num) blocks) ≡ none
      → walk (suc fuel) bh curr_num processed blocks
        ≡ stopped bh
            ((curr_num + 1) % 2 ^ 64)
            (bh ∷ processed)
            (assign bh (with_number h curr_num) blocks)
  unfolding walk
  walk_breaks z e f = ground arith

  pub walk_goes_on :
      {p : BlockHeader}
      → h.block_number ≡ none
      → is_empty h.prev_hash ≡ false
      → find h.prev_hash (assign bh (with_number h curr_num) blocks) ≡ some p
      → walk (suc fuel) bh curr_num processed blocks
        ≡ walk fuel h.prev_hash
            ((curr_num + 1) % 2 ^ 64)
            (bh ∷ processed)
            (assign bh (with_number h curr_num) blocks)
  unfolding walk
  walk_goes_on z e f = ground arith

module _ (all_num : ℕ) (bh : Bytes) (rest : List Bytes) (bc : BlockChain) {h : BlockHeader} {v : ℕ}
    (here : find bh bc.blocks ≡ some h) (numbered : h.block_number ≡ some v) where
  pub renumber_goes_on :
      (number : ℕ)
      → number ≡ (all_num + 2 ^ 64 - v) % 2 ^ 64
      → number ≡ length bc.hashes
      → renumber all_num (bh ∷ rest) bc
        ≡ renumber all_num rest (record {
          blocks = assign bh (with_number h number) bc.blocks;
          hashes = bc.hashes ++ (h.hash ∷ []);
        })
  unfolding renumber
  renumber_goes_on number e f = ground arith

  pub renumber_throws :
      (number : ℕ)
      → number ≡ (all_num + 2 ^ 64 - v) % 2 ^ 64
      → (number == length bc.hashes) ≡ false
      → renumber all_num (bh ∷ rest) bc
        ≡ thrown ups (record bc { blocks = assign bh (with_number h number) bc.blocks })
  unfolding renumber
  renumber_throws number e f = ground arith

pub after_walk_stopped :
    (hashes : List Bytes) (bh : Bytes) (curr_num : ℕ) (processed : List Bytes)
    (blocks : Map BlockHeader) {h : BlockHeader} {n : ℕ}
    → find bh blocks ≡ some h
    → h.block_number ≡ some n
    → after_walk hashes (stopped bh curr_num processed blocks)
      ≡ renumber ((curr_num + n) % 2 ^ 64) processed (record { blocks = blocks; hashes = hashes })
unfolding after_walk
after_walk_stopped hashes bh curr_num processed blocks e z = ground arith

pub calc_blockchain_walks :
    (bc : BlockChain) (last_hash : Bytes) {h : BlockHeader}
    → is_empty last_hash ≡ false
    → find last_hash bc.blocks ≡ some h
    → calc_blockchain bc last_hash
      ≡ after_walk bc.hashes (walk (suc (length bc.blocks)) last_hash 0 [] bc.blocks)
unfolding calc_blockchain
calc_blockchain_walks bc last_hash e f = ground arith
