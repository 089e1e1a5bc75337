-- ===== src/Batches/Tests.antt =====
-- Ten blocks from number 100 on, in batches of three, for
-- src/BlockSource/GetNewBlocksFromServers.cpp: the last part has one block.
use node_infrastructure_torr.Prelude.{ℕ, ◌+◌, ◌*◌, ◌≡◌, ◌≢◌, ◌⊎◌, refl, arith, [], ◌∷◌}
use node_infrastructure_torr.Batches.{
  blocks_in_part, get_block_by_number, header_request, stored_numbers,
}
use node_infrastructure_torr.Batches.Numbers.{asked_numbers, header_request_cases}

abbrev block_num : ℕ
block_num = 100

last_part_asks : header_request 100 10 3 3 ≡ get_block_by_number 103
unfolding header_request blocks_in_part
last_part_asks = refl

last_part_stores : stored_numbers 100 10 3 3 ≡ 109 ∷ []
unfolding stored_numbers blocks_in_part
last_part_stores = refl

header_request_cases_example :
    (asked_numbers (header_request 100 10 3 3) ≡ stored_numbers 100 10 3 3)
    ⊎ ((blocks_in_part 10 3 3 ≡ 1)
        × (asked_numbers (header_request 100 10 3 3) ≡ (103 ∷ []))
        × (stored_numbers 100 10 3 3 ≡ (109 ∷ []))
        × (block_num + 3 ≢ block_num + 3 * 3))
header_request_cases_example = header_request_cases 100 10 3 3 (omega arith)
