-- ===== src/BlockChain.antt =====
-- src/BlockChain.h, src/BlockChain.cpp: the blocks by hash, and the hashes by number. The mutex
-- makes each operation one step. A reference into the map is the key of its entry.
pub mod Walk
pub mod Ends
pub mod Invariant
pub mod NewBlock
pub mod AddBlock
pub mod History
pub mod Links
pub mod Path
mod Tests
use node_infrastructure_torr.Prelude.{
  ℕ, zero, suc, ◌+◌, ◌-◌, ◌%◌, ◌^◌, Bool, true, false, Bytes, List, [], ◌∷◌, ◌++◌, Option, none,
  some, length, get_elem?, replicate, is_empty, Map, find, assign, erase, ltb, leb, ◌==◌,
  if◌then◌else◌, Error, empty_hash, not_found, already_exists, not_set, ups, Result, ok, err,
}
use node_infrastructure_torr.BlockInfo.Records.{BlockHeader}

pub record BlockChain : Type 0 where
  pub blocks : Map BlockHeader
  pub hashes : List Bytes

-- How a method ends, with the state that it leaves. `dangling` is a reference to an entry that is
-- gone, and `unfinished` a loop that used up its fuel.
pub data Exit {ℓ} (A : Type ℓ) : Type ℓ where
  returned : A → BlockChain → Exit A
  thrown : Error → BlockChain → Exit A
  dangling : Exit A
  unfinished : Exit A

-- A `BlockHeader()`. Its members without an initialiser, which are numbers that no caller reads
-- before it has seen the empty hash, are 0 here.
abbrev pub new_header : BlockHeader
new_header = record {
  timestamp = 0;
  block_size = 0;
  block_type = 0;
  hash = [];
  prev_hash = [];
  signature = [];
  txs_hash = [];
  count_txs = none;
  file_pos = record { file_name = []; pos = 0 };
  end_block_pos = 0;
  block_number = none;
  sender_sign = [];
  sender_pubkey = [];
  sender_address = [];
}

abbrev pub genesis_block_hash : Bytes
genesis_block_hash = replicate 64 b'0'

-- initialize(), on members that are empty, as the constructor and clear() call it
pub initialize : BlockChain
initialize =
    let genesis = record new_header { hash = genesis_block_hash; block_number = some 0 } in
    record { blocks = (genesis_block_hash, genesis) ∷ []; hashes = genesis_block_hash ∷ [] }

pub clear : BlockChain → BlockChain
unfolding initialize
clear bc = initialize

abbrev exists : Option BlockHeader → Bool
exists none = false
exists (some h) = true

pub add_without_calc : BlockChain → BlockHeader → Exit Bool
add_without_calc bc block =
    if is_empty block.hash
    then thrown empty_hash bc
    else if exists (find block.hash bc.blocks)
    then returned true bc
    else returned false (record bc { blocks = assign block.hash block bc.blocks })

pub remove_block : BlockChain → BlockHeader → Exit (Unit {0})
remove_block bc block =
    if is_empty block.hash
    then thrown empty_hash bc
    else returned tt (record bc { blocks = erase block.hash bc.blocks })

abbrev pub with_number : BlockHeader → ℕ → BlockHeader
with_number h n = record h { block_number = some n }

-- How the loop of `calcBlockchain` ends: at `bh`, the reference it holds, with `currNum`,
-- `processedBlocks` (the latest first) and the map; or by its `CHECK`.
pub data WalkEnd : Type 0 where
  stopped : Bytes → ℕ → List Bytes → Map BlockHeader → WalkEnd
  refused : Error → Map BlockHeader → WalkEnd
  lost : WalkEnd
  out_of_fuel : WalkEnd

-- while (!bh.get().blockNumber.has_value()) { ... }
pub walk : ℕ → Bytes → ℕ → List Bytes → Map BlockHeader → WalkEnd
walk zero bh curr_num processed blocks = out_of_fuel
walk (suc fuel) bh curr_num processed blocks = elim (find bh blocks) [
  | none ↦ lost
  | some header ↦ elim header.block_number [
    | some n ↦ stopped bh curr_num processed blocks
    | none ↦
        let blocks' = assign bh (with_number header curr_num) blocks in
        let curr_num' = (curr_num + 1) % 2 ^ 64 in
        if is_empty header.prev_hash
        then refused empty_hash blocks'
        else elim (find header.prev_hash blocks') [
          | none ↦ stopped bh curr_num' (bh ∷ processed) blocks'
          | some _ ↦ walk fuel header.prev_hash curr_num' (bh ∷ processed) blocks'
        ]
  ]
]

-- for (auto iter = processedBlocks.rbegin(); ...) { ... } return allNum;
pub renumber : ℕ → List Bytes → BlockChain → Exit ℕ
renumber all_num [] bc = returned all_num bc
renumber all_num (bh ∷ rest) bc = elim (find bh bc.blocks) [
  | none ↦ dangling
  | some header ↦ elim header.block_number [
    | none ↦ thrown not_set bc
    | some v ↦
        let number = (all_num + 2 ^ 64 - v) % 2 ^ 64 in
        let blocks' = assign bh (with_number header number) bc.blocks in
        elim (number == length bc.hashes) [
          | true ↦
              renumber all_num rest
                (record { blocks = blocks'; hashes = bc.hashes ++ (header.hash ∷ []) })
          | false ↦ thrown ups (record bc { blocks = blocks' })
        ]
  ]
]

-- for (BlockHeader &block: processedBlocks) block.blockNumber.reset();
pub reset_numbers : List Bytes → Map BlockHeader → Map BlockHeader
reset_numbers [] blocks = blocks
reset_numbers (bh ∷ rest) blocks = elim (find bh blocks) [
  | none ↦ reset_numbers rest blocks
  | some header ↦ reset_numbers rest (assign bh (record header { block_number = none }) blocks)
]

-- What `calcBlockchain` does behind its loop.
pub after_walk : List Bytes → WalkEnd → Exit ℕ
unfolding renumber reset_numbers
after_walk hashes (stopped bh curr_num processed blocks) = elim (find bh blocks) [
  | none ↦ dangling
  | some header ↦ elim header.block_number [
    | some n ↦
        renumber ((curr_num + n) % 2 ^ 64) processed (record { blocks = blocks; hashes = hashes })
    | none ↦ returned 0 (record { blocks = reset_numbers processed blocks; hashes = hashes })
  ]
]
after_walk hashes (refused e blocks) = thrown e (record { blocks = blocks; hashes = hashes })
after_walk hashes lost = dangling
after_walk hashes out_of_fuel = unfinished

-- Each round of the loop numbers a block, so one round more than there are blocks is enough.
pub calc_blockchain : BlockChain → Bytes → Exit ℕ
calc_blockchain bc last_hash =
    if is_empty last_hash then thrown empty_hash bc else elim (find last_hash bc.blocks) [
      | none ↦ thrown not_found bc
      | some _ ↦ after_walk bc.hashes (walk (suc (length bc.blocks)) last_hash 0 [] bc.blocks)
    ]

-- catch (const exception &e) { removeBlock(block); throw; }
roll_back : BlockHeader → Exit ℕ → Exit ℕ
roll_back block (returned n bc) = returned n bc
roll_back block (thrown e bc) = elim (remove_block bc block) [
  | returned _ bc' ↦ thrown e bc'
  | thrown e' bc' ↦ thrown e' bc'
  | dangling ↦ dangling
  | unfinished ↦ unfinished
]
roll_back block dangling = dangling
roll_back block unfinished = unfinished

pub add_block : BlockChain → BlockHeader → Exit ℕ
unfolding roll_back
add_block bc block = elim (add_without_calc bc block) [
  | returned found bc' ↦
      if found then thrown already_exists bc' else roll_back block (calc_blockchain bc' block.hash)
  | thrown e bc' ↦ thrown e bc'
  | dangling ↦ dangling
  | unfinished ↦ unfinished
]

abbrev header_or_new : Option BlockHeader → BlockHeader
header_or_new none = new_header
header_or_new (some h) = h

-- getBlockImpl(hash)
pub get_block_impl : BlockChain → Bytes → BlockHeader
get_block_impl bc hash = header_or_new (find hash bc.blocks)

-- getBlock(hash)
pub get_block : BlockChain → Bytes → Result BlockHeader
unfolding get_block_impl
get_block bc hash = if is_empty hash then err empty_hash else ok (get_block_impl bc hash)

abbrev at_hash : BlockChain → Option Bytes → BlockHeader
at_hash bc none = new_header
at_hash bc (some hash) = get_block_impl bc hash

-- getBlock(blockNumber), where `get_elem?` makes the test hashes.size() <= blockNumber
pub get_block_by_number : BlockChain → ℕ → BlockHeader
unfolding get_block_impl
get_block_by_number bc number = at_hash bc (get_elem? bc.hashes number)

pub count_blocks : BlockChain → ℕ
count_blocks bc = (length bc.hashes + 2 ^ 64 - 1) % 2 ^ 64

pub get_last_block : BlockChain → BlockHeader
unfolding get_block_by_number count_blocks
get_last_block bc = get_block_by_number bc (count_blocks bc)
