-- ===== src/BlockRead/Block.antt =====
-- Blocks in memory: `readBlockHeaderWithoutSize`, `readBlockTxs` and the overload of
-- `readNextBlockInfo` for a buffer, of src/BlockchainRead.cpp.
use node_infrastructure_torr.Prelude.{
  ℕ, zero, suc, ◌+◌, ◌-◌, Bool, true, false, not, ◌&&◌, Bytes, List, [], ◌∷◌, ◌++◌, Option, some,
  none, ltb, leb, ◌==◌, if◌then◌else◌, length, Result, ok, err, fault, ◌>>=◌,
}
use node_infrastructure_torr.Address.{address_eq}
use node_infrastructure_torr.BlockInfo.Records.{TransactionInfo, BlockHeader, BlockInfo}
use node_infrastructure_torr.BlockInfo.Codec.{new_transaction_info}
use node_infrastructure_torr.Keys.{get_double_sha256}
use node_infrastructure_torr.BlockRead.{read_int, read_bytes}
use node_infrastructure_torr.BlockRead.Transaction.{
  Libraries, PrevTransactionSignHelper, read_transaction_info,
}

-- BLOCK_HEADER_SIZE
abbrev pub block_header_size : ℕ
block_header_size = 88

-- What `readBlockHeaderWithoutSize` reads.
pub record HeaderFields : Type 0 where
  pub block_type : ℕ
  pub timestamp : ℕ
  pub prev_hash : Bytes
  pub txs_hash : Bytes

unfoldable pub read_header_fields : Bytes → ℕ → ℕ → Result HeaderFields
read_header_fields raw end_pos begin_pos = do
  (block_type, pos) ← read_int 8 raw end_pos begin_pos
  (timestamp, pos') ← read_int 8 raw end_pos pos
  (prev_hash, pos'') ← read_bytes 32 raw end_pos pos'
  (txs_hash, _) ← read_bytes 32 raw end_pos pos''
  ok (record {
    block_type = block_type;
    timestamp = timestamp;
    prev_hash = prev_hash;
    txs_hash = txs_hash;
  })

-- What `readBlockTxs` sets in a block.
pub record BlockParts : Type 0 where
  pub hash : Bytes
  pub txs : List TransactionInfo
  -- the data of the first transaction, where it is one of a signature
  pub first_data : Option Bytes

abbrev pub first_helper : PrevTransactionSignHelper
first_helper = record { is_first = true; is_prev_sign = true; prev_tx_data = [] }

-- The loop has fuel for each byte of the block.
abbrev or_fault {ℓ} : {A : Type ℓ} → Option (Result A) → Result A
or_fault none = fault
or_fault (some r) = r

-- bi.header.signature, of the first transaction
unfoldable pub signature_data : List TransactionInfo → Result (Option Bytes)
signature_data [] = ok none
signature_data (tx ∷ rest) = do
  same ← address_eq tx.from_address tx.to_address
  ok (if same && tx.value == 0 then some tx.tx_data else none)

unfoldable pub set_parts : ℕ → BlockParts → BlockInfo → BlockInfo
set_parts count_tx parts bi = record {
  header = record bi.header {
    hash = parts.hash;
    count_txs = if count_tx == 0 then some (length parts.txs) else bi.header.count_txs;
    signature = elim parts.first_data [ none ↦ bi.header.signature | some d ↦ d ];
  };
  txs = parts.txs;
}

module _ (libraries : Libraries) where
  open libraries use {crypto, unset_value, to_hex}

  unfoldable pub set_header : HeaderFields → BlockHeader → BlockHeader
  set_header fields header = record header {
    block_type = fields.block_type;
    timestamp = fields.timestamp;
    prev_hash = to_hex fields.prev_hash;
    txs_hash = to_hex fields.txs_hash;
  }

  module _ (raw : Bytes) (pos_in_file : ℕ) (is_save_all_tx : Bool) (begin_tx count_tx : ℕ)
      (is_validate : Bool) where
    -- A round, of the transaction that was read: the loop goes on with `next`.
    unfoldable pub txs_round :
        (PrevTransactionSignHelper
          → ℕ
          → List TransactionInfo
          → Option (Result (List TransactionInfo)))
        → Bool
        → List TransactionInfo
        → Result ((ℕ × TransactionInfo) × ℕ)
        → Option (Result (List TransactionInfo))
    txs_round next is_read txs (ok ((tx_size, tx_info), new_pos)) =
        let txs' = if tx_info.is_initialized && is_read then txs ++ (tx_info ∷ []) else txs in
        let helper : PrevTransactionSignHelper = record {
          is_first = false;
          is_prev_sign = tx_info.is_sign_block_tx;
          prev_tx_data = tx_info.tx_data;
        } in
        if not (count_tx == 0) && leb count_tx (length txs')
        then some (ok txs')
        else if ltb 0 tx_size
        then next helper new_pos txs'
        else some (ok txs')
    txs_round next is_read txs (err e) = some (err e)
    txs_round next is_read txs fault = some fault

    -- The loop over the transactions, from the one with the index `tx_index` at `cur_pos`. Each round
    -- takes one unit of fuel; `none` means that it ran out.
    unfoldable pub txs_loop :
        ℕ
        → ℕ
        → PrevTransactionSignHelper
        → ℕ
        → List TransactionInfo
        → Option (Result (List TransactionInfo))
    txs_loop zero tx_index helper cur_pos txs = none
    txs_loop (suc fuel) tx_index helper cur_pos txs =
        txs_round (txs_loop fuel (tx_index + 1)) (leb begin_tx tx_index) txs (
          read_transaction_info libraries raw (length raw) cur_pos
            (new_transaction_info unset_value (cur_pos + pos_in_file + 8)) (leb begin_tx tx_index)
            is_save_all_tx helper is_validate)

  -- Of a block with the transactions `txs`.
  unfoldable pub read_parts :
      Bytes → ℕ → Bool → ℕ → ℕ → Bool → List TransactionInfo → Result BlockParts
  read_parts raw pos_in_file is_save_all_tx begin_tx count_tx is_validate txs = do
    block_hash ← get_double_sha256 crypto true raw
    txs' ← or_fault (
        txs_loop raw pos_in_file is_save_all_tx begin_tx count_tx is_validate (suc (length raw)) 0
          first_helper (block_header_size - 8) txs)
    first_data ← signature_data txs'
    ok (record { hash = to_hex block_hash; txs = txs'; first_data = first_data })

  -- readBlockTxs(begin_pos, end_pos, posInFile, bi, ...)
  unfoldable pub read_block_txs : Bytes → ℕ → BlockInfo → Bool → ℕ → ℕ → Bool → Result BlockInfo
  read_block_txs raw pos_in_file bi is_save_all_tx begin_tx count_tx is_validate = do
    parts ← read_parts raw pos_in_file is_save_all_tx begin_tx count_tx is_validate bi.txs
    ok (set_parts count_tx parts bi)

  -- readNextBlockInfo(begin_pos, end_pos, posInFile, bi, ...)
  unfoldable pub read_next_block_info :
      Bytes → ℕ → BlockInfo → Bool → Bool → ℕ → ℕ → Result BlockInfo
  read_next_block_info raw pos_in_file bi is_validate is_save_all_tx begin_tx count_tx = do
    fields ← read_header_fields raw (length raw) 0
    bi' ←
        read_block_txs raw pos_in_file (record bi { header = set_header fields bi.header })
          is_save_all_tx begin_tx count_tx is_validate
    ok (record bi' {
      header = record bi'.header {
        block_size = length raw;
        file_pos = record bi'.header.file_pos { pos = pos_in_file };
        end_block_pos = pos_in_file + length raw + 8;
      };
    })
