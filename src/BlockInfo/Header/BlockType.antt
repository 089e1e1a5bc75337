-- ===== src/BlockInfo/Header/BlockType.antt =====
-- The kinds of blocks in src/BlockInfo.cpp.
use node_infrastructure_torr.Prelude.{◌≡◌, ◌⊎◌, true, false, arith, codes, ok, err, incorrect_type}
use node_infrastructure_torr.BlockInfo.Records.{BlockHeader}
use node_infrastructure_torr.BlockInfo.Header.{
  is_state_block, is_simple_block, is_forging_block, get_block_type,
}

-- A block is of one kind at most, and `get_block_type` names that kind and throws if there is none.
pub get_block_type_cases :
    (h : BlockHeader)
    → ((is_state_block h ≡ true)
        × (is_simple_block h ≡ false)
        × (is_forging_block h ≡ false)
        × (get_block_type h ≡ ok (codes "state")))
      ⊎ ((is_state_block h ≡ false)
          × (is_simple_block h ≡ true)
          × (is_forging_block h ≡ false)
          × (get_block_type h ≡ ok (codes "block")))
      ⊎ ((is_state_block h ≡ false)
          × (is_simple_block h ≡ false)
          × (is_forging_block h ≡ true)
          × (get_block_type h ≡ ok (codes "forging")))
      ⊎ ((is_state_block h ≡ false)
          × (is_simple_block h ≡ false)
          × (is_forging_block h ≡ false)
          × (get_block_type h ≡ err incorrect_type))
unfolding get_block_type is_state_block is_simple_block is_forging_block
get_block_type_cases h = ground arith
