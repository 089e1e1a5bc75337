-- ===== src/BlockInfo/Header.antt =====
-- The methods of `BlockHeader` in src/BlockInfo.cpp.
pub mod RoundTrip
pub mod BlockType
mod Tests
use node_infrastructure_torr.Prelude.{
  ℕ, Bool, not, ◌||◌, Bytes, [], ◌++◌, Option, none, some, is_empty, codes, ◌==◌, if◌then◌else◌,
  Result, ok, err, ◌>>=◌ as ◌>>=R◌, check, or_fail, empty_hash, not_set, incorrect_type,
}
use node_infrastructure_torr.Serialize.{
  serialize_int, serialize_string, deserialize_int, deserialize_string,
}
use node_infrastructure_torr.Serialize.Cursor.{Cursor, ◌>>=◌, pure, whole}
use node_infrastructure_torr.BlockInfo.Records.{BlockHeader}
use node_infrastructure_torr.BlockInfo.Codec.{serialize_file_position, deserialize_file_position}

abbrev pub block_type_initial : ℕ
block_type_initial = 0xEFCDAB8967452301

abbrev pub block_type_common : ℕ
block_type_common = 0x0000000067452301

abbrev pub block_type_state : ℕ
block_type_state = 0x1100000067452301

abbrev pub block_type_forging : ℕ
block_type_forging = 0x2200000067452301

abbrev pub block_type_common_2 : ℕ
block_type_common_2 = 0x0001000067452301

abbrev pub block_type_state_2 : ℕ
block_type_state_2 = 0x1101000067452301

abbrev pub block_type_forging_2 : ℕ
block_type_forging_2 = 0x2201000067452301

pub is_state_block : BlockHeader → Bool
is_state_block h = h.block_type == block_type_state || h.block_type == block_type_state_2

pub is_simple_block : BlockHeader → Bool
is_simple_block h =
    h.block_type == block_type_initial
    || (h.block_type == block_type_common || h.block_type == block_type_common_2)

pub is_forging_block : BlockHeader → Bool
is_forging_block h = h.block_type == block_type_forging || h.block_type == block_type_forging_2

pub get_block_type : BlockHeader → Result Bytes
unfolding is_state_block is_simple_block is_forging_block
get_block_type h =
    if is_state_block h
    then ok (codes "state")
    else if is_simple_block h
    then ok (codes "block")
    else if is_forging_block h
    then ok (codes "forging")
    else err incorrect_type

-- BlockHeader::serialize(). The string is built from the left by `+=`.
pub serialize_block_header : BlockHeader → Result Bytes
serialize_block_header h = check (not (is_empty h.hash)) empty_hash >>=R λ _.
    check (not (is_empty h.prev_hash)) empty_hash >>=R λ _.
    or_fail h.count_txs not_set >>=R λ count_txs. ok (
      serialize_file_position h.file_pos
      ++ serialize_string h.prev_hash
      ++ serialize_string h.hash
      ++ serialize_string h.txs_hash
      ++ serialize_string h.signature
      ++ serialize_int 8 h.block_size
      ++ serialize_int 8 h.block_type
      ++ serialize_int 8 h.timestamp
      ++ serialize_int 8 count_txs
      ++ serialize_string h.sender_sign
      ++ serialize_string h.sender_pubkey
      ++ serialize_string h.sender_address)

pub deserialize_block_header_at : Cursor BlockHeader
deserialize_block_header_at = do
  file_pos ← deserialize_file_position
  prev_hash ← deserialize_string
  hash ← deserialize_string
  txs_hash ← deserialize_string
  signature ← deserialize_string
  block_size ← deserialize_int 8
  block_type ← deserialize_int 8
  timestamp ← deserialize_int 8
  count_txs ← deserialize_int 8
  sender_sign ← deserialize_string
  sender_pubkey ← deserialize_string
  sender_address ← deserialize_string
  pure (record {
    timestamp = timestamp;
    block_size = block_size;
    block_type = block_type;
    hash = hash;
    prev_hash = prev_hash;
    signature = signature;
    txs_hash = txs_hash;
    count_txs = some count_txs;
    file_pos = file_pos;
    end_block_pos = 0;
    block_number = none;
    sender_sign = sender_sign;
    sender_pubkey = sender_pubkey;
    sender_address = sender_address;
  })

-- BlockHeader::deserialize(raw)
pub deserialize_block_header : Bytes → Result BlockHeader
deserialize_block_header = whole deserialize_block_header_at
