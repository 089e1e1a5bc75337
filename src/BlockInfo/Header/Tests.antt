-- ===== src/BlockInfo/Header/Tests.antt =====
-- A small header for `BlockHeader` of src/BlockInfo.cpp.
use node_infrastructure_torr.Prelude.{
  ◌^◌, ◌<◌, ◌≡◌, refl, arith, false, Bytes, [], codes, length, some, is_empty, ok,
}
use node_infrastructure_torr.Serialize.{
  write_loop, to_binary_string, serialize_int, serialize_string,
}
use node_infrastructure_torr.BlockInfo.Records.{BlockHeader}
use node_infrastructure_torr.BlockInfo.Codec.{serialize_file_position}
use node_infrastructure_torr.BlockInfo.Header.{
  block_type_state, serialize_block_header, deserialize_block_header,
}
use node_infrastructure_torr.BlockInfo.Header.RoundTrip.{
  IsInRange, stored, deserialize_block_header-serialize_block_header,
}

abbrev header : BlockHeader
header = record {
  timestamp = 1600000000;
  block_size = 500;
  block_type = block_type_state;
  hash = codes "a1";
  prev_hash = codes "b2";
  signature = codes "s";
  txs_hash = codes "t";
  count_txs = some 3;
  file_pos = record { file_name = codes "blk"; pos = 700 };
  end_block_pos = 1200;
  block_number = some 9;
  sender_sign = [];
  sender_pubkey = [];
  sender_address = codes "d";
}

header-IsInRange : IsInRange header
header-IsInRange = record {
  pos = omega arith;
  block_size = omega arith;
  block_type = omega arith;
  timestamp = omega arith;
}

abbrev header_written :
    (raw : Bytes) × (serialize_block_header header ≡ ok raw) × (length raw < 2 ^ 64)
unfolding serialize_block_header serialize_file_position serialize_string serialize_int
    to_binary_string write_loop
header_written = (_, refl, omega arith)

deserialize_block_header-serialize_block_header_example :
    (is_empty header.hash ≡ false)
    × (is_empty header.prev_hash ≡ false)
    × (deserialize_block_header header_written.0 ≡ ok (stored header 3))
deserialize_block_header-serialize_block_header_example =
    deserialize_block_header-serialize_block_header header header_written.0 3 header_written.1 refl
      header-IsInRange (omega arith) header_written.2
