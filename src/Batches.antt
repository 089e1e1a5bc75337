-- ===== src/Batches.antt =====
-- The batches of headers in src/BlockSource/GetNewBlocksFromServers.cpp: `getBlockHeader` asks for
-- the headers of several blocks at once, and stores them under their numbers.
pub mod Numbers
mod Tests
use node_infrastructure_torr.Prelude.{
  ℕ, zero, suc, ◌+◌, ◌-◌, ◌*◌, ◌/◌, ◌%◌, ◌^◌, min, Bool, not, List, [], ◌∷◌, ◌==◌, if◌then◌else◌,
}

-- countBlocks, of blockNum, maxBlockNum and maxAdvancedLoadBlocks
pub blocks_to_load : ℕ → ℕ → ℕ → ℕ
blocks_to_load block_num max_block_num max_advanced =
    min ((max_block_num + 2 ^ 64 - block_num + 1) % 2 ^ 64) max_advanced

-- countParts, of countBlocks and countBlocksInBatch
pub count_parts : ℕ → ℕ → ℕ
count_parts count batch = (count + batch - 1) % 2 ^ 64 / batch

-- The requests "get-blocks", with beginBlock and countBlocks, and "get-block-by-number".
pub data HeaderRequest : Type 0 where
  get_blocks : ℕ → ℕ → HeaderRequest
  get_block_by_number : ℕ → HeaderRequest

-- min(countBlocksInBatch, countBlocks - i * countBlocksInBatch)
pub blocks_in_part : ℕ → ℕ → ℕ → ℕ
blocks_in_part count batch i = min batch ((count + 2 ^ 64 - i * batch % 2 ^ 64) % 2 ^ 64)

-- makeQsAndPost(number), of blockNum, countBlocks and countBlocksInBatch
pub header_request : ℕ → ℕ → ℕ → ℕ → HeaderRequest
unfolding blocks_in_part
header_request block_num count batch number =
    if not (blocks_in_part count batch number == 1)
    then get_blocks ((block_num + number * batch) % 2 ^ 64) (blocks_in_part count batch number)
    else get_block_by_number ((block_num + number) % 2 ^ 64)

-- The numbers from `begin` on.
unfoldable pub numbers_from : ℕ → ℕ → List ℕ
numbers_from begin zero = []
numbers_from begin (suc n) = begin ∷ numbers_from (begin + 1) n

-- The numbers under which the headers of part `i` are stored: currBlockNum + j, or currBlockNum.
pub stored_numbers : ℕ → ℕ → ℕ → ℕ → List ℕ
unfolding blocks_in_part numbers_from
stored_numbers block_num count batch i =
    let curr_block_num = (block_num + i * batch) % 2 ^ 64 in
    if not (blocks_in_part count batch i == 1)
    then numbers_from curr_block_num (blocks_in_part count batch i)
    else curr_block_num ∷ []
