-- ===== src/BlockRead/Tests.antt =====
-- Runs of the reads of src/BlockchainRead.cpp, and the theorems at concrete blocks.
use node_infrastructure_torr.Prelude.{
  ◌+◌, ◌-◌, ◌%◌, ◌^◌, ◌≡◌, refl, min, arith, true, false, Bytes, [], ◌∷◌, ◌++◌, some, none,
  bytes_eq, length, take, drop, replicate, get_or, ok, fault, ◌>>=◌,
}
use node_infrastructure_torr.BlockInfo.Records.{TransactionInfo, BlockHeader, BlockInfo}
use node_infrastructure_torr.BlockInfo.Codec.{new_transaction_info}
use node_infrastructure_torr.BlockRead.{
  slice, load, little_endian, read_int, read_by_length, read_var_int,
}
use node_infrastructure_torr.BlockRead.Transaction.{Libraries, read_transaction_info, stoull}
use node_infrastructure_torr.BlockRead.Block.{first_helper, read_next_block_info}
use node_infrastructure_torr.BlockRead.File.{
  save_block_to_file_binary, get_block_dump, read_next_block_info_of_file,
}
use node_infrastructure_torr.BlockRead.Bounds.{Outcome, Ahead}
use node_infrastructure_torr.BlockRead.Total.{IsUndefined, read_transaction_info-Outcome}
use node_infrastructure_torr.BlockRead.Outside.{read_transaction_info_outside}
use node_infrastructure_torr.BlockRead.Dumps.{saved, get_block_dump-save}
use node_infrastructure_torr.BlockRead.Saved.{read_next_block_info_of_file-save}

abbrev toy : Libraries
toy = record {
  crypto = record {
    sha256 = λ d. replicate 32 (get_or d 0 0 % 256);
    ripemd160 = λ d. replicate 20 (get_or d 0 0 % 256);
    d2i_pubkey = λ k. some k;
    d2i_ecdsa_sig = λ s. some s;
    ecdsa_do_verify = λ h s k. bytes_eq h s;
    secp_uncompressed = λ k. some k;
  };
  parse_json = λ d. none;
  unset_value = 0;
  to_hex = λ d. d;
}

abbrev new_tx : TransactionInfo
new_tx = new_transaction_info 0 0

-- A transaction of 31 bytes: an address, four numbers of which the last is the size of the data, no
-- signature and no key. The size of the data is 200.
abbrev too_long : Bytes
too_long = 31 ∷ (replicate 25 1 ++ (7 ∷ 1 ∷ 2 ∷ 200 ∷ 0 ∷ 0 ∷ []))

abbrev right : Bytes
right = 31 ∷ (replicate 25 1 ++ (7 ∷ 1 ∷ 2 ∷ 0 ∷ 0 ∷ 0 ∷ [])) ++ (0 ∷ [])

read_transaction_info-Outcome_example :
    Outcome
      (Ahead 0 32)
      (IsUndefined toy true too_long 32 0)
      (read_transaction_info toy too_long 32 0 new_tx true false first_helper false)
read_transaction_info-Outcome_example =
    read_transaction_info-Outcome toy too_long 32 0 new_tx true false first_helper false
      (omega arith)

read_transaction_info_outside_example :
    read_transaction_info toy too_long 32 0 new_tx true false first_helper false ≡ fault
read_transaction_info_outside_example =
    read_transaction_info_outside 31 7 1 2 200 (replicate 25 1) (0 ∷ 0 ∷ []) refl (omega arith)
      (omega arith) (omega arith) (omega arith) (omega arith) toy new_tx false first_helper false
      (omega arith) (omega arith) (omega arith)

-- The size of the transaction is 2 ^ 64 - 1.
abbrev huge_size : Bytes
huge_size = 252 ∷ (replicate 8 255 ++ (0 ∷ []))

passed_over : read_transaction_info toy huge_size 10 0 new_tx false false first_helper false ≡ fault
unfolding read_transaction_info read_var_int read_by_length read_int load slice little_endian
passed_over = refl

-- A header of 80 bytes, and no transaction.
abbrev small_block : Bytes
small_block = replicate 80 3 ++ (0 ∷ [])

abbrev old_file : Bytes
old_file = 1 ∷ 2 ∷ []

get_block_dump-save_example :
    get_block_dump
      (saved old_file small_block (9 ∷ []))
      (save_block_to_file_binary old_file small_block).0
      79
      100
    ≡ ok (length small_block, take (min 100 (length small_block) - 79) (drop 79 small_block))
get_block_dump-save_example =
    get_block_dump-save old_file small_block (9 ∷ []) 79 100 (omega arith) (omega arith)
      (omega arith) (omega arith)

abbrev plain_header : BlockHeader
plain_header = record {
  timestamp = 0;
  block_size = 0;
  block_type = 0;
  hash = [];
  prev_hash = [];
  signature = [];
  txs_hash = [];
  count_txs = none;
  file_pos = record { file_name = []; pos = 0 };
  end_block_pos = 0;
  block_number = none;
  sender_sign = [];
  sender_pubkey = [];
  sender_address = [];
}

abbrev plain_block : BlockInfo
plain_block = record { header = plain_header; txs = [] }

read_next_block_info_of_file-save_example :
    read_next_block_info_of_file toy
      (saved old_file small_block (9 ∷ []))
      (save_block_to_file_binary old_file small_block).0
      plain_block
      []
      true
      false
      0
      0
    ≡ (do
      bi' ← read_next_block_info toy small_block (length old_file) plain_block true false 0 0
      ok ((bi', small_block), length old_file + length small_block + 8))
read_next_block_info_of_file-save_example =
    read_next_block_info_of_file-save old_file small_block (9 ∷ []) (omega arith) toy (omega arith)
      plain_block [] true false 0 0

two_byte_number : read_var_int (250 ∷ 1 ∷ 2 ∷ []) 3 0 ≡ ok (513, 3)
unfolding read_var_int read_by_length read_int load slice little_endian
two_byte_number = refl

minus_one : stoull (32 ∷ b'-' ∷ b'1' ∷ b'x' ∷ []) ≡ some (2 ^ 64 - 1)
unfolding stoull
minus_one = refl
