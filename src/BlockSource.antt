-- ===== src/BlockSource.antt =====
-- `NetworkBlockSource` of src/BlockSource/NetworkBlockSource.h and its .cpp: blocks from servers, up
-- to eight loaded at once and handed on one by one. `GetNewBlocksFromServer` is the interface
-- `Getter`, over the state of the servers and of what it has loaded.
pub mod Handing
pub mod Draining
mod Tests
use node_infrastructure_torr.Prelude.{
  ℕ, zero, suc, ◌+◌, ◌-◌, ◌^◌, ◌%◌, min, Bool, true, false, Bytes, List, [], ◌∷◌, Option, none,
  some, ◌⊎◌, inl, inr, ltb, leb, ◌==◌, if◌then◌else◌, length, Result, ok, err, fault, ◌>>=◌, ◌>>◌,
  check, Error, not_found, not_set, incorrect_count,
}
use node_infrastructure_torr.BlockInfo.Records.{BlockHeader, BlockInfo}
use node_infrastructure_torr.BlockChain.{new_header}
use node_infrastructure_torr.Keys.BlockSignature.{BlockSignature}
use node_infrastructure_torr.Keys.Signatures.{check_signature_block}
use node_infrastructure_torr.BlockRead.Transaction.{Libraries}
use node_infrastructure_torr.BlockRead.Block.{read_next_block_info}

pub record MinimumBlockHeader : Type 0 where
  pub number : ℕ
  pub block_size : ℕ
  pub hash : Bytes
  pub parent_hash : Bytes
  pub file_name : Bytes

pub record LastBlockResponse : Type 0 where
  pub servers : List Bytes
  pub last_block : ℕ
  pub error : Option Error

-- The methods of `GetNewBlocksFromServer`: what they return or throw, and the state behind them.
pub record Getter {ℓ} (W : Type ℓ) : Type ℓ where
  pub get_last_block : W → (Error ⊎ LastBlockResponse) × W
  pub get_block_header : ℕ → ℕ → Bytes → W → (Error ⊎ MinimumBlockHeader) × W
  pub get_block_dump : Bytes → ℕ → List Bytes → Bool → W → (Error ⊎ Bytes) × W
  pub clear_advanced : W → W

-- The members that the constructor sets. `block_path folder file` is
-- getFullPath(getBasename(file), folder).
pub record Settings : Type 0 where
  pub libraries : Libraries
  pub block_path : Bytes → Bytes → Bytes
  pub folder_path : Bytes
  pub save_all_tx : Bool
  pub is_validate : Bool
  pub is_verify_sign : Bool

pub record AdvancedBlock : Type 0 where
  pub header : MinimumBlockHeader
  pub bi : BlockInfo
  pub dump : Bytes
  pub exception : Option Error

pub record NetworkBlockSource : Type 0 where
  pub next_block_to_read : ℕ
  pub servers : List Bytes
  pub last_block_in_blockchain : ℕ
  pub advanced_blocks : List (ℕ × AdvancedBlock)

-- How `process` ends: it returns false, or true with a block and its bytes, or throws.
pub data Processed : Type 0 where
  no_block : Processed
  handed : BlockInfo → Bytes → Processed
  thrown : Error → Processed
  dangling : Processed

abbrev pub count_advanced_blocks : ℕ
count_advanced_blocks = 8

abbrev pub no_header : MinimumBlockHeader
no_header = record { number = 0; block_size = 0; hash = []; parent_hash = []; file_name = [] }

abbrev pub new_advanced : AdvancedBlock
new_advanced = record {
  header = no_header;
  bi = record { header = new_header; txs = [] };
  dump = [];
  exception = none;
}

-- advancedBlocks.find(number)
unfoldable pub find_block : ℕ → List (ℕ × AdvancedBlock) → Option AdvancedBlock
find_block number [] = none
find_block number ((n, advanced) ∷ rest) =
    let later = find_block number rest in if n == number then some advanced else later

-- countAdvanced
unfoldable pub count_advanced : NetworkBlockSource → ℕ
count_advanced s =
    min count_advanced_blocks
      ((s.last_block_in_blockchain + 2 ^ 64 - s.next_block_to_read + 1) % 2 ^ 64)

-- processAdvanced(advanced)
unfoldable pub hand_on : AdvancedBlock → NetworkBlockSource → Processed × NetworkBlockSource
hand_on advanced s = elim advanced.exception [
  | some e ↦ (thrown e, s)
  | none ↦ (
    handed advanced.bi advanced.dump,
    record s { next_block_to_read = (s.next_block_to_read + 1) % 2 ^ 64 },
  )
]

-- The end of `process`, on the blocks that were loaded.
unfoldable pub hand_on_loaded :
    Result (List (ℕ × AdvancedBlock)) → NetworkBlockSource → Processed × NetworkBlockSource
hand_on_loaded fault s = (dangling, s)
hand_on_loaded (err e) s = (thrown e, s)
hand_on_loaded (ok blocks) s =
    let s' = record s { advanced_blocks = blocks } in
    elim (find_block s.next_block_to_read blocks) [
      | none ↦ (thrown not_found, s')
      | some advanced ↦ hand_on advanced s'
    ]

module _ (settings : Settings) where
  open settings use {libraries, block_path, folder_path, save_all_tx, is_validate, is_verify_sign}

  -- The block that the signed message in the dump has, with its signature.
  unfoldable pub unpack : AdvancedBlock → Result AdvancedBlock
  unpack advanced =
      if is_verify_sign
      then (do
        sign_block ← check_signature_block libraries.crypto advanced.dump
        ok (record advanced {
          dump = sign_block.block;
          bi = record advanced.bi {
            header = record advanced.bi.header {
              sender_sign = sign_block.sign;
              sender_pubkey = sign_block.pubkey;
              sender_address = sign_block.address;
            };
          };
        }))
      else ok advanced

  -- The try block of the loop with `parallelFor`.
  unfoldable pub parse_advanced : AdvancedBlock → Result AdvancedBlock
  parse_advanced advanced = do
    a ← unpack advanced
    check (length a.dump == a.header.block_size) incorrect_count
    let file_name = block_path folder_path a.header.file_name
    bi ←
        read_next_block_info libraries a.dump 0
          (record a.bi {
            header = record a.bi.header {
              file_pos = record a.bi.header.file_pos { file_name = file_name };
            };
          })
          is_validate save_all_tx 0 0
    ok (record a { bi = bi })

  -- catch (...): the exception is stored. What the block has else is not looked at again.
  unfoldable pub keep_exception : AdvancedBlock → Result AdvancedBlock → Result AdvancedBlock
  keep_exception advanced (ok a) = ok a
  keep_exception advanced (err e) = ok (record advanced { exception = some e })
  keep_exception advanced fault = fault

  -- The body of that loop.
  unfoldable pub verify_one : AdvancedBlock → Result AdvancedBlock
  verify_one advanced = elim advanced.exception [
    | some e ↦ ok advanced
    | none ↦ keep_exception advanced (parse_advanced advanced)
  ]

  -- Each block is on its own, so that the order does not matter.
  unfoldable pub verify_blocks : List (ℕ × AdvancedBlock) → Result (List (ℕ × AdvancedBlock))
  verify_blocks [] = ok []
  verify_blocks ((n, advanced) ∷ rest) = do
    a ← verify_one advanced
    later ← verify_blocks rest
    ok ((n, a) ∷ later)

  module _ {ℓ} {W : Type ℓ} (getter : Getter W) where
    open getter use {get_last_block, get_block_header, get_block_dump, clear_advanced}

    -- advanced.dump, of the header
    unfoldable pub load_dump : List Bytes → MinimumBlockHeader → W → AdvancedBlock × W
    load_dump servers header w =
        let (r, w') = get_block_dump header.hash header.block_size servers is_verify_sign w in
        elim r [
          | inl e ↦ (record new_advanced { header = header; exception = some e }, w')
          | inr dump ↦ (record new_advanced { header = header; dump = dump }, w')
        ]

    -- The body of the loop that loads, for the block `curr_block`.
    unfoldable pub load_one : ℕ → Bytes → List Bytes → ℕ → W → AdvancedBlock × W
    load_one last_block server servers curr_block w =
        let (r, w') = get_block_header curr_block last_block server w in
        elim r [
          | inl e ↦ (record new_advanced { exception = some e }, w')
          | inr header ↦ load_dump servers header w'
        ]

    -- The loop that loads `count` blocks from `curr_block` on.
    unfoldable pub load_blocks : ℕ → Bytes → List Bytes → ℕ → ℕ → W → List (ℕ × AdvancedBlock) × W
    load_blocks last_block server servers zero curr_block w = ([], w)
    load_blocks last_block server servers (suc count) curr_block w =
        let (advanced, w') = load_one last_block server servers curr_block w in
        let (rest, w'') = load_blocks last_block server servers count (curr_block + 1) w' in
        ((curr_block, advanced) ∷ rest, w'')

    -- What `process` does where the block is not there.
    unfoldable pub load_more :
        List Bytes → NetworkBlockSource → W → (Processed × NetworkBlockSource) × W
    load_more [] s w = ((thrown not_set, record s { advanced_blocks = [] }), w)
    load_more (server ∷ others) s w =
        let (blocks, w') =
          load_blocks s.last_block_in_blockchain server s.servers (count_advanced s)
            s.next_block_to_read w in
        (hand_on_loaded (verify_blocks blocks) (record s { advanced_blocks = [] }), w')

    unfoldable pub process : NetworkBlockSource → W → (Processed × NetworkBlockSource) × W
    process s w =
        if ltb s.last_block_in_blockchain s.next_block_to_read
        then ((no_block, s), w)
        else elim (find_block s.next_block_to_read s.advanced_blocks) [
          | some advanced ↦ (hand_on advanced s, w)
          | none ↦ load_more s.servers s w
        ]

    -- `doProcess` where the servers told the last block.
    unfoldable pub start :
        LastBlockResponse → NetworkBlockSource → W → (Result (Bool × ℕ) × NetworkBlockSource) × W
    start response s w = elim response.error [
      | some e ↦ ((err e, s), w)
      | none ↦ (
        (
          ok (leb s.next_block_to_read response.last_block, response.last_block),
          record s {
            last_block_in_blockchain = response.last_block;
            servers = response.servers;
            advanced_blocks = [];
          },
        ),
        clear_advanced w,
      )
    ]

    -- `doProcess` behind the answer of the servers.
    unfoldable pub answer :
        Error ⊎ LastBlockResponse
        → NetworkBlockSource
        → W
        → (Result (Bool × ℕ) × NetworkBlockSource) × W
    answer (inl e) s w = ((err e, s), w)
    answer (inr response) s w = start response s w

    unfoldable pub do_process :
        ℕ → NetworkBlockSource → W → (Result (Bool × ℕ) × NetworkBlockSource) × W
    do_process count_blocks s w =
        let s' = record s { next_block_to_read = (count_blocks + 1) % 2 ^ 64 } in
        let (r, w') = get_last_block w in answer r s' w'
