-- ===== src/BlockInfo/Codec.antt =====
-- The `serialize` and `deserialize` methods of src/BlockInfo.cpp, but those of `TransactionStatus`
-- and `BlockHeader`. A method that fills a buffer is a function of what the buffer held.
pub mod RoundTrip
pub mod Metadata
use node_infrastructure_torr.Prelude.{
  ℕ, Bool, true, false, not, Bytes, [], ◌++◌, Option, none, some, is_empty, if◌then◌else◌, Result,
  ok, ◌>>=◌ as ◌>>=R◌, check, empty_hash,
}
use node_infrastructure_torr.Serialize.{
  serialize_int, serialize_int_into, serialize_string, serialize_string_into, from_binary_string,
  deserialize_int, deserialize_string_at, deserialize_string,
}
use node_infrastructure_torr.Serialize.Cursor.{Cursor, ◌>>=◌, pure, moving, has_more, whole}
use node_infrastructure_torr.Address.{unset_address}
use node_infrastructure_torr.BlockInfo.Records.{
  FilePosition, AddressInfo, TransactionInfo, BlocksMetadata, MainBlockInfo, FileInfo,
}

-- FilePosition::serialize()
unfoldable pub serialize_file_position : FilePosition → Bytes
serialize_file_position p = serialize_string p.file_name ++ serialize_int 8 p.pos

-- FilePosition::serialize(buffer)
pub serialize_file_position_into : FilePosition → Bytes → Bytes
serialize_file_position_into p buffer =
    serialize_int_into 8 p.pos (serialize_string_into p.file_name buffer)

-- FilePosition::deserialize(raw, from, nextFrom)
pub deserialize_file_position_at : Cursor FilePosition
deserialize_file_position_at = do
  file_name ← moving deserialize_string_at
  pos ← moving (from_binary_string 8)
  pure (record { file_name = file_name; pos = pos })

-- FilePosition::deserialize(raw, from)
pub deserialize_file_position : Cursor FilePosition
deserialize_file_position = moving deserialize_file_position_at

-- TransactionInfo::serialize(buffer)
pub serialize_transaction_info : TransactionInfo → Bytes → Bytes
serialize_transaction_info t buffer =
    let cleared : Bytes = [] in
    serialize_int_into 8 t.block_number (serialize_file_position_into t.file_pos cleared)

-- A new `TransactionInfo`. Its members `value` and `filePos.pos` have no initialiser: they hold
-- any numbers, the arguments here.
unfoldable pub new_transaction_info : ℕ → ℕ → TransactionInfo
new_transaction_info value pos = record {
  hash = [];
  from_address = unset_address;
  to_address = unset_address;
  value = value;
  fees = 0;
  nonce = 0;
  block_number = 0;
  size_raw_tx = 0;
  is_save_to_bd = true;
  is_sign_block_tx = false;
  int_status = none;
  sign = [];
  pub_key = [];
  tx_data = [];
  all_raw_tx = [];
  real_fees = none;
  delegate_info = none;
  script_info = none;
  file_pos = record { file_name = []; pos = pos };
  status = none;
  is_module_not_set = false;
  is_initialized = false;
}

-- TransactionInfo::deserialize(raw, from), which fills a new `TransactionInfo`.
pub deserialize_transaction_info : TransactionInfo → Cursor TransactionInfo
deserialize_transaction_info result = do
  file_pos ← deserialize_file_position
  block_number ← deserialize_int 8
  pure (record result { file_pos = file_pos; block_number = block_number })

abbrev append_optional : Option ℕ → Bytes → Bytes
append_optional none buffer = buffer
append_optional (some v) buffer = serialize_int_into 8 v buffer

-- AddressInfo::serialize(buffer)
pub serialize_address_info : AddressInfo → Bytes → Bytes
serialize_address_info a buffer =
    let cleared : Bytes = [] in
    append_optional a.undelegate_value
      (serialize_int_into 8 a.block_number (serialize_file_position_into a.file_pos cleared))

abbrev read_optional : Bool → Cursor (Option ℕ)
read_optional more = if more then (do v ← deserialize_int 8; pure (some v)) else pure none

-- AddressInfo::deserialize(raw)
pub deserialize_address_info_at : Cursor AddressInfo
deserialize_address_info_at = do
  file_pos ← deserialize_file_position
  block_number ← deserialize_int 8
  more ← has_more
  undelegate_value ← read_optional more
  pure (record {
    file_pos = file_pos;
    block_number = block_number;
    undelegate_value = undelegate_value;
  })

pub deserialize_address_info : Bytes → Result AddressInfo
deserialize_address_info = whole deserialize_address_info_at

-- BlocksMetadata::serialize()
pub serialize_blocks_metadata : BlocksMetadata → Result Bytes
serialize_blocks_metadata m = check (not (is_empty m.block_hash)) empty_hash >>=R λ _.
    check (not (is_empty m.prev_block_hash)) empty_hash >>=R λ _. ok (
      serialize_string m.block_hash
      ++ serialize_string m.prev_block_hash
      ++ serialize_int 8 m.block_number)

pub deserialize_blocks_metadata_at : Cursor BlocksMetadata
deserialize_blocks_metadata_at = do
  block_hash ← deserialize_string
  prev_block_hash ← deserialize_string
  block_number ← deserialize_int 8
  pure (record {
    block_hash = block_hash;
    prev_block_hash = prev_block_hash;
    block_number = block_number;
  })

-- BlocksMetadata::deserialize(raw)
pub deserialize_blocks_metadata : Bytes → Result BlocksMetadata
deserialize_blocks_metadata raw =
    if is_empty raw
    then ok (record { block_hash = []; prev_block_hash = []; block_number = 0 })
    else whole deserialize_blocks_metadata_at raw

-- MainBlockInfo::serialize()
pub serialize_main_block_info : MainBlockInfo → Result Bytes
serialize_main_block_info m = check (not (is_empty m.block_hash)) empty_hash >>=R λ _.
    ok (
      serialize_string m.block_hash
      ++ serialize_int 8 m.block_number
      ++ serialize_int 8 m.count_val)

pub deserialize_main_block_info_at : Cursor MainBlockInfo
deserialize_main_block_info_at = do
  block_hash ← deserialize_string
  block_number ← deserialize_int 8
  count_val ← deserialize_int 8
  pure (record { block_number = block_number; block_hash = block_hash; count_val = count_val })

-- MainBlockInfo::deserialize(raw)
pub deserialize_main_block_info : Bytes → Result MainBlockInfo
deserialize_main_block_info raw =
    if is_empty raw
    then ok (record { block_number = 0; block_hash = []; count_val = 0 })
    else whole deserialize_main_block_info_at raw

-- FileInfo::serialize()
pub serialize_file_info : FileInfo → Bytes
serialize_file_info f = serialize_file_position f.file_pos

-- FileInfo::deserialize(raw), through FilePosition::deserialize(raw)
pub deserialize_file_info : Bytes → Result FileInfo
deserialize_file_info raw =
    whole deserialize_file_position_at raw >>=R λ p. ok (record { file_pos = p })
