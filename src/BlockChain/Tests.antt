-- ===== src/BlockChain/Tests.antt =====
-- Small chains for src/BlockChain.cpp.
use node_infrastructure_torr.Prelude.{
  sym, some, false, All, ◌++◌, assign, ◌+◌, ◌^◌, ◌<◌, ◌≡◌, ◌≢◌, ◌⊎◌, refl, inl, arith, [], ◌∷◌,
  none, codes, length, find, bytes_eq, Error,
}
use node_infrastructure_torr.BlockInfo.Records.{BlockHeader}
use node_infrastructure_torr.BlockChain.{
  BlockChain, new_header, genesis_block_hash, initialize, returned, thrown, add_block,
  calc_blockchain,
}
use node_infrastructure_torr.BlockChain.Ends.{Ended, calc_blockchain-Ended}
use node_infrastructure_torr.BlockChain.Invariant.{IsIndexed, initialize-IsIndexed, extended}
use node_infrastructure_torr.BlockChain.NewBlock.{IsNew}
use node_infrastructure_torr.BlockChain.AddBlock.{IsAcceptable, add_block_accepts}
use node_infrastructure_torr.BlockChain.History.{add_block_cases, add_blocks, add_blocks-IsIndexed}
use node_infrastructure_torr.BlockChain.Path.{AreDistinct, AreNumbered}
use node_infrastructure_torr.BlockChain.Path.Trail.{IsTrail, back_onto, calc_blockchain_path}
use node_infrastructure_torr.BlockChain.Links.{IsLinked, add_block-IsLinked, add_block_orphan}

abbrev first : BlockHeader
first = record new_header { hash = codes "a1"; prev_hash = genesis_block_hash }

abbrev second : BlockHeader
second = record new_header { hash = codes "b2"; prev_hash = codes "a1" }

abbrev orphan : BlockHeader
orphan = record new_header { hash = codes "c3"; prev_hash = codes "ff" }

-- Two blocks that name each other as their parents.
abbrev circle : BlockChain
circle = record {
  blocks =
      (codes "a1", record new_header { hash = codes "a1"; prev_hash = codes "b2" })
      ∷ (codes "b2", record new_header { hash = codes "b2"; prev_hash = codes "a1" })
      ∷ [];
  hashes = [];
}

first-IsNew : IsNew initialize first
unfolding initialize find bytes_eq
first-IsNew = record { named = refl; fresh = refl; unset = refl; parented = refl }

orphan-IsNew : IsNew initialize orphan
unfolding initialize find bytes_eq
orphan-IsNew = record { named = refl; fresh = refl; unset = refl; parented = refl }

orphan_missing : find orphan.prev_hash initialize.blocks ≡ none
unfolding initialize find bytes_eq
orphan_missing = refl

first-IsAcceptable : IsAcceptable initialize first
unfolding initialize
first-IsAcceptable = inl refl

initialize_short : length initialize.hashes < 2 ^ 64
unfolding initialize
initialize_short = omega arith

first_added : add_block initialize first ≡ returned 1 (extended initialize first)
unfolding initialize
first_added =
    add_block_accepts initialize first initialize-IsIndexed initialize_short first-IsNew
      first-IsAcceptable

genesis_known : find first.prev_hash initialize.blocks ≢ none
unfolding initialize find bytes_eq
genesis_known e = cc e

initialize-IsLinked : IsLinked initialize
unfolding initialize
initialize-IsLinked = record { parent = λ i k e. absurd (cc e) }

genesis_alone : length initialize.hashes ≡ 1
unfolding initialize
genesis_alone = refl

calc_blockchain-Ended_example : Ended (calc_blockchain circle (codes "a1"))
calc_blockchain-Ended_example = calc_blockchain-Ended circle (codes "a1")

add_block_accepts_example :
    add_block initialize first ≡ returned (length initialize.hashes) (extended initialize first)
add_block_accepts_example =
    add_block_accepts initialize first initialize-IsIndexed initialize_short first-IsNew
      first-IsAcceptable

add_block_cases_example :
    (IsNew initialize first
      × IsAcceptable initialize first
      × (add_block initialize first
          ≡ returned (length initialize.hashes) (extended initialize first)))
    ⊎ ((e : Error) × (add_block initialize first ≡ thrown e initialize))
add_block_cases_example =
    add_block_cases initialize first initialize-IsIndexed initialize_short refl

add_blocks-IsIndexed_example : IsIndexed (add_blocks initialize (first ∷ second ∷ orphan ∷ []))
add_blocks-IsIndexed_example =
    add_blocks-IsIndexed initialize (first ∷ second ∷ orphan ∷ []) initialize-IsIndexed
      (refl, (refl, (refl, tt))) three_more
  where
    three_more : length initialize.hashes + 3 < 2 ^ 64
    three_more = omega (arith, genesis_alone)

add_block-IsLinked_example : IsLinked (extended initialize first)
add_block-IsLinked_example =
    add_block-IsLinked initialize first initialize-IsIndexed 1 (extended initialize first)
      initialize_short refl (inl genesis_known) first_added initialize-IsLinked

add_block_orphan_example :
    (add_block initialize orphan ≡ returned 1 (extended initialize orphan))
    × ¬ (IsLinked (extended initialize orphan))
add_block_orphan_example =
    add_block_orphan initialize orphan initialize-IsIndexed genesis_alone orphan-IsNew
      orphan_missing

-- The chain with two blocks that have no numbers yet, as `addWithoutCalc` leaves it.
abbrev loaded : BlockChain
loaded = record {
  blocks = assign second.hash second (assign first.hash first initialize.blocks);
  hashes = initialize.hashes;
}

genesis_found :
    (g : BlockHeader) × (find genesis_block_hash loaded.blocks ≡ some g) × (g.block_number ≡ some 0)
unfolding initialize find assign bytes_eq
genesis_found = (_, refl, refl)

loaded-IsTrail : IsTrail loaded.blocks genesis_block_hash (second.hash ∷ first.hash ∷ [])
unfolding initialize find assign bytes_eq
loaded-IsTrail =
    ((second, refl, refl, refl, refl, refl), ((first, refl, refl, refl, refl, refl), tt))

loaded-AreDistinct : AreDistinct (second.hash ∷ first.hash ∷ [])
unfolding bytes_eq
loaded-AreDistinct = ((refl, tt), (tt, tt))

loaded_beside : All (λ j. bytes_eq j genesis_block_hash ≡ false) (second.hash ∷ first.hash ∷ [])
unfolding bytes_eq
loaded_beside = (refl, (refl, tt))

calc_blockchain_path_example :
    (bc' : BlockChain) × (calc_blockchain loaded second.hash ≡ returned (0 + 2) bc')
    × (bc'.hashes ≡ loaded.hashes ++ back_onto (second.hash ∷ first.hash ∷ []) [])
    × AreNumbered bc'.blocks (length loaded.hashes) (back_onto (second.hash ∷ first.hash ∷ []) [])
calc_blockchain_path_example =
    calc_blockchain_path loaded genesis_block_hash second.hash genesis_found.0 0 (first.hash ∷ [])
      genesis_found.1 genesis_found.2 (sym genesis_alone) refl loaded-IsTrail loaded-AreDistinct
      loaded_beside (omega (arith, genesis_alone))
