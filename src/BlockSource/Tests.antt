-- ===== src/BlockSource/Tests.antt =====
-- Runs of `NetworkBlockSource`, and its theorems at a chain of three blocks.
use node_infrastructure_torr.Prelude.{
  ℕ, suc, ◌+◌, ◌-◌, ◌≡◌, refl, arith, true, false, Bytes, [], ◌∷◌, ◌++◌, none, some, inr, bytes_eq,
  map, replicate, get_or, Result, ok, err, fault, codes,
}
use node_infrastructure_torr.Batches.{numbers_from}
use node_infrastructure_torr.BlockInfo.Codec.{new_transaction_info}
use node_infrastructure_torr.Keys.{get_double_sha256}
use node_infrastructure_torr.BlockRead.{
  slice, load, little_endian, read_int, read_by_length, read_var_int, read_bytes,
}
use node_infrastructure_torr.BlockRead.Transaction.{Libraries, read_transaction_info}
use node_infrastructure_torr.BlockRead.Block.{
  read_header_fields, set_header, set_parts, signature_data, read_parts, read_block_txs, txs_loop,
  txs_round, read_next_block_info,
}
use node_infrastructure_torr.BlockSource.{
  Getter, Settings, AdvancedBlock, NetworkBlockSource, LastBlockResponse, new_advanced, verify_one,
  load_one, load_dump, keep_exception, parse_advanced, unpack, process, do_process,
}
use node_infrastructure_torr.BlockSource.Handing.{Each, Ends, Loaded, process_cases}
use node_infrastructure_torr.BlockSource.Draining.{drain, drain-all}

abbrev toy : Libraries
toy = record {
  crypto = record {
    sha256 = λ d. replicate 32 0;
    ripemd160 = λ d. replicate 20 0;
    d2i_pubkey = λ k. some k;
    d2i_ecdsa_sig = λ s. some s;
    ecdsa_do_verify = λ h s k. bytes_eq h s;
    secp_uncompressed = λ k. some k;
  };
  parse_json = λ d. none;
  unset_value = 0;
  to_hex = λ d. d;
}

abbrev settings : Settings
settings = record {
  libraries = toy;
  block_path = λ folder name. folder ++ name;
  folder_path = codes "folder/";
  save_all_tx = true;
  is_validate = true;
  is_verify_sign = false;
}

abbrev last_response : LastBlockResponse
last_response = record { servers = codes "one" ∷ codes "two" ∷ []; last_block = 3; error = none }

-- A header of 80 bytes that begins with the number of the block, and no transaction.
abbrev block_dump : ℕ → Bytes
block_dump k = k ∷ (replicate 79 0 ++ (0 ∷ []))

-- The servers, which count what they are asked. The hash of a block is its number.
abbrev servers_of_chain : Getter ℕ
servers_of_chain = record {
  get_last_block = λ w. (inr last_response, w + 1);
  get_block_header = λ k last server w. (
    inr (record {
      number = k;
      block_size = 81;
      hash = k ∷ [];
      parent_hash = [];
      file_name = codes "blocks";
    }),
    w + 1,
  );
  get_block_dump = λ hash size servers is_sign w. (inr (block_dump (get_or hash 0 0)), w + 1);
  clear_advanced = λ w. w;
}

abbrev or_new : Result AdvancedBlock → AdvancedBlock
or_new (ok a) = a
or_new (err e) = new_advanced
or_new fault = new_advanced

abbrev expected : ℕ → AdvancedBlock
expected k = or_new (
    verify_one settings
      (load_one settings servers_of_chain 3 (codes "one") last_response.servers k 0).0)

abbrev new_source : NetworkBlockSource
new_source = record {
  next_block_to_read = 0;
  servers = [];
  last_block_in_blockchain = 0;
  advanced_blocks = [];
}

served :
    (k w : ℕ)
    → verify_one settings
        (load_one settings servers_of_chain 3 (codes "one") last_response.servers k w).0
      ≡ ok (expected k)
unfolding verify_one load_one load_dump keep_exception parse_advanced unpack read_next_block_info
    read_header_fields read_int read_bytes slice load little_endian set_header read_block_txs
    read_parts txs_loop txs_round read_transaction_info read_var_int read_by_length signature_data
    set_parts get_double_sha256 new_transaction_info
served k w = refl

no_exception : (k : ℕ) → (expected k).exception ≡ none
unfolding verify_one load_one load_dump keep_exception parse_advanced unpack read_next_block_info
    read_header_fields read_int read_bytes slice load little_endian set_header read_block_txs
    read_parts txs_loop txs_round read_transaction_info read_var_int read_by_length signature_data
    set_parts get_double_sha256 new_transaction_info
no_exception k = refl

drain-all_example :
    let ((r, s'), w') = do_process settings servers_of_chain (2 - 1) new_source 0 in
    drain settings servers_of_chain (suc (3 + 1 - 2)) s' w'
    ≡ some (map (λ k. ((expected k).bi, (expected k).dump)) (numbers_from 2 (3 + 1 - 2)))
drain-all_example =
    drain-all settings servers_of_chain expected 2 new_source 0 last_response (codes "one")
      (codes "two" ∷ []) refl refl refl (omega arith) (omega arith) (omega arith)
      (λ k w h l. served k w) (λ k h l. no_exception k)

-- At block 2, which is loaded, and not handed on yet.
abbrev at_two : NetworkBlockSource
at_two = record {
  next_block_to_read = 2;
  servers = last_response.servers;
  last_block_in_blockchain = 3;
  advanced_blocks = (2, expected 2) ∷ [];
}

process_cases_example :
    Ends settings servers_of_chain
      (Loaded settings servers_of_chain at_two)
      at_two
      (process settings servers_of_chain at_two 0).0
    × ((count_blocks : ℕ)
        → let s' = (do_process settings servers_of_chain count_blocks at_two 0).0.1 in
          Each (Loaded settings servers_of_chain s') s'.advanced_blocks)
process_cases_example =
    process_cases settings servers_of_chain at_two 0
      ((codes "one", codes "two" ∷ [], 0, refl, served 2 0), tt)
