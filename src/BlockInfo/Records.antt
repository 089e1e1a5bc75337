-- ===== src/BlockInfo/Records.antt =====
-- The structures of src/BlockInfo.h. `size_t` and `uint64_t` are numbers below 2 ^ 64, and an
-- `int64_t` is the number with the same 64 bits. Strings and vectors of bytes are `Bytes`.
use node_infrastructure_torr.Prelude.{ℕ, Bool, Bytes, List, Option}
use node_infrastructure_torr.Address.{Address}

pub record FilePosition : Type 0 where
  pub file_name : Bytes
  pub pos : ℕ

pub record AddressInfo : Type 0 where
  pub file_pos : FilePosition
  pub block_number : ℕ
  pub undelegate_value : Option ℕ

pub record UnDelegate : Type 0 where
  pub value : ℕ
  pub delegate_hash : Bytes

pub record V8Status : Type 0 where
  pub is_server_error : Bool
  pub is_script_error : Bool
  pub compiled_contract_address : Address

-- std::variant<std::monostate, Delegate, UnDelegate, V8Status>
pub data Status : Type 0 where
  monostate : Status
  delegate : Status
  un_delegate : UnDelegate → Status
  v8_status : V8Status → Status

pub record TransactionStatus : Type 0 where
  pub is_success : Bool
  pub transaction : Bytes
  pub block_number : ℕ
  pub status : Status

pub record DelegateInfo : Type 0 where
  pub value : ℕ
  pub is_delegate : Bool

pub record ScriptInfo : Type 0 where
  pub tx_raw : Bytes
  pub is_initialize_script : Bool

-- The field `data` is `tx_data`.
pub record TransactionInfo : Type 0 where
  pub hash : Bytes
  pub from_address : Address
  pub to_address : Address
  pub value : ℕ
  pub fees : ℕ
  pub nonce : ℕ
  pub block_number : ℕ
  pub size_raw_tx : ℕ
  pub is_save_to_bd : Bool
  pub is_sign_block_tx : Bool
  pub int_status : Option ℕ
  pub sign : Bytes
  pub pub_key : Bytes
  pub tx_data : Bytes
  pub all_raw_tx : Bytes
  pub real_fees : Option ℕ
  pub delegate_info : Option DelegateInfo
  pub script_info : Option ScriptInfo
  pub file_pos : FilePosition
  pub status : Option TransactionStatus
  pub is_module_not_set : Bool
  pub is_initialized : Bool

pub record BlockHeader : Type 0 where
  pub timestamp : ℕ
  pub block_size : ℕ
  pub block_type : ℕ
  pub hash : Bytes
  pub prev_hash : Bytes
  pub signature : Bytes
  pub txs_hash : Bytes
  pub count_txs : Option ℕ
  pub file_pos : FilePosition
  pub end_block_pos : ℕ
  pub block_number : Option ℕ
  pub sender_sign : Bytes
  pub sender_pubkey : Bytes
  pub sender_address : Bytes

pub record BlockInfo : Type 0 where
  pub header : BlockHeader
  pub txs : List TransactionInfo

pub record BlocksMetadata : Type 0 where
  pub block_hash : Bytes
  pub prev_block_hash : Bytes
  pub block_number : ℕ

pub record MainBlockInfo : Type 0 where
  pub block_number : ℕ
  pub block_hash : Bytes
  pub count_val : ℕ

pub record FileInfo : Type 0 where
  pub file_pos : FilePosition
