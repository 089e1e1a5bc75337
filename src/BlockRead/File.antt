-- ===== src/BlockRead/File.antt =====
-- Blocks in files: the functions of src/BlockchainRead.cpp that seek, read and append. A file is its
-- bytes; a read from it that stops at its end leaves zeros in the buffer.
use node_infrastructure_torr.Prelude.{
  ℕ, zero, suc, ◌+◌, ◌-◌, ◌^◌, ◌%◌, ◌/◌, Bool, true, false, Bytes, [], ◌∷◌, ◌++◌, Option, some,
  none, ltb, leb, if◌then◌else◌, length, take, drop, replicate, Result, ok, ◌>>=◌, ◌>>◌, check,
  out_of_range,
}
use node_infrastructure_torr.BlockInfo.Records.{TransactionInfo, BlockHeader, BlockInfo}
use node_infrastructure_torr.BlockRead.{little_endian, read_int, read_var_int}
use node_infrastructure_torr.BlockRead.Transaction.{Libraries, read_transaction_info}
use node_infrastructure_torr.BlockRead.Block.{
  block_header_size, read_header_fields, set_header, read_block_txs,
}

-- The bytes of a number in memory.
unfoldable pub native_bytes : ℕ → ℕ → Bytes
native_bytes zero n = []
native_bytes (suc size) n = n % 256 ∷ native_bytes size (n / 256)

-- A buffer of `n` zeros, and a read into it from `pos` on.
unfoldable pub read_at : Bytes → ℕ → ℕ → Bytes
read_at file pos n = take n (drop pos file ++ replicate n 0)

-- The size of a buffer that can be allocated.
abbrev pub check_allocation : ℕ → Result (Unit {0})
check_allocation size = check (ltb size (2 ^ 63)) out_of_range

-- saveBlockToFileBinary(fileName, data): the size of the file before, and the file
unfoldable pub save_block_to_file_binary : Bytes → Bytes → ℕ × Bytes
save_block_to_file_binary file block =
    (length file, file ++ (native_bytes 8 (length block) ++ block))

-- saveTransactionToFile(file, data)
unfoldable pub save_transaction_to_file : Bytes → Bytes → ℕ × Bytes
save_transaction_to_file file tx = (length file, file ++ tx)

-- Whether a header can stand at `curr_pos`.
unfoldable pub has_header : Bytes → ℕ → Bool
has_header file curr_pos =
    if leb (length file) curr_pos then false else leb block_header_size (length file - curr_pos)

module _ (libraries : Libraries) where
  -- readBlockHeader(begin_pos, end_pos, bi), of the buffer of a header
  unfoldable pub read_block_header_of : Bytes → BlockHeader → Result BlockHeader
  read_block_header_of buffer header = do
    (block_size, pos) ← read_int 8 buffer (length buffer) 0
    fields ← read_header_fields buffer (length buffer) pos
    ok (set_header libraries fields (record header { block_size = block_size }))

  -- readBlockHeader(ifile, currPos, f_size, bi); nothing where it returns false
  unfoldable pub read_block_header : Bytes → ℕ → BlockHeader → Result (Option BlockHeader)
  read_block_header file curr_pos header =
      if has_header file curr_pos
      then (do
        header' ←
            read_block_header_of (read_at file curr_pos block_header_size)
              (record header { file_pos = record header.file_pos { pos = curr_pos } })
        ok (some header'))
      else ok none

  -- Behind the header of the block.
  unfoldable pub read_block_behind_header :
      Bytes
      → ℕ
      → BlockInfo
      → Bytes
      → Bool
      → Bool
      → ℕ
      → ℕ
      → BlockHeader
      → Result ((BlockInfo × Bytes) × ℕ)
  read_block_behind_header file curr_pos bi dump is_validate is_save_all_tx begin_tx count_tx
        header =
      if ltb (length file - curr_pos) ((header.block_size + 8) % 2 ^ 64)
      then ok ((record bi { header = header }, dump), curr_pos)
      else do
        check_allocation header.block_size
        let block_dump = read_at file (curr_pos + 8) header.block_size
        bi' ←
            read_block_txs libraries block_dump curr_pos (record bi { header = header })
              is_save_all_tx begin_tx count_tx is_validate
        let next = curr_pos + (bi'.header.block_size + 8) % 2 ^ 64
        ok ((record bi' { header = record bi'.header { end_block_pos = next } }, block_dump), next)

  -- readNextBlockInfo(ifile, currPos, bi, blockDump, ...): the block, its bytes, and the position
  unfoldable pub read_next_block_info_of_file :
      Bytes → ℕ → BlockInfo → Bytes → Bool → Bool → ℕ → ℕ → Result ((BlockInfo × Bytes) × ℕ)
  read_next_block_info_of_file file curr_pos bi dump is_validate is_save_all_tx begin_tx count_tx =
      do
        found ← read_block_header file curr_pos bi.header
        elim found [
          | none ↦ ok ((bi, dump), curr_pos)
          | some header ↦
              read_block_behind_header file curr_pos bi dump is_validate is_save_all_tx begin_tx
                count_tx header
        ]

  -- readOneTransactionInfo(ifile, currPos, txInfo, isSaveAllTx); nothing where it returns false
  unfoldable pub read_one_transaction_info :
      Bytes → ℕ → TransactionInfo → Bool → Result (Option TransactionInfo)
  read_one_transaction_info file curr_pos tx_info is_save_all_tx =
      if (if leb (length file) curr_pos then false else leb 8 (length file - curr_pos))
      then (do
        (size_tx, _) ← read_var_int (read_at file curr_pos 9) 9 0
        check_allocation ((size_tx + 16) % 2 ^ 64)
        let buffer = read_at file curr_pos ((size_tx + 16) % 2 ^ 64)
        ((_, tx_info'), _) ←
            read_transaction_info libraries buffer (length buffer) 0 tx_info true is_save_all_tx
              (record { is_first = false; is_prev_sign = false; prev_tx_data = [] }) false
        ok (some tx_info'))
      else ok none

-- getBlockDump(ifile, currPos, fromByte, toByte). A string of a size that wrapped cannot be allocated.
unfoldable pub get_block_dump : Bytes → ℕ → ℕ → ℕ → Result (ℕ × Bytes)
get_block_dump file curr_pos from_byte to_byte =
    if has_header file curr_pos
    then (let block_size = little_endian (take 8 (read_at file curr_pos block_header_size)) in
        let to = if ltb block_size to_byte then block_size else to_byte in
        let size = (to + 2 ^ 64 - from_byte) % 2 ^ 64 in
        if leb block_size from_byte then ok (0, []) else do
          check_allocation size
          ok (block_size, read_at file (curr_pos + 8 + from_byte) size))
    else ok (0, [])
