-- ===== src/BlockInfo/Codec/Metadata.antt =====
-- The records that src/BlockInfo.cpp keeps under fixed keys of the database.
use node_infrastructure_torr.Prelude.{
  ◌^◌, ◌<◌, ◌≡◌, arith, Bytes, ◌++◌, append-nil, append_assoc, length, length-append, ok, is_empty,
  false, is_empty_of_pos,
}
use node_infrastructure_torr.Serialize.{serialize_int, serialize_string}
use node_infrastructure_torr.Serialize.Cursor.{
  Decodes-pure, Decodes-bind, Decodes-eq, DecodesEnd-of_Decodes, DecodesEnd-whole,
}
use node_infrastructure_torr.Serialize.RoundTrip.{
  IsU64, Decodes-u64, Decodes-string, length-serialize_string,
}
use node_infrastructure_torr.BlockInfo.Records.{BlocksMetadata, MainBlockInfo}
use node_infrastructure_torr.BlockInfo.Codec.{
  serialize_blocks_metadata, deserialize_blocks_metadata_at, deserialize_blocks_metadata,
  serialize_main_block_info, deserialize_main_block_info_at, deserialize_main_block_info,
}

not_empty_behind_string : (str rest : Bytes) → is_empty (serialize_string str ++ rest) ≡ false
not_empty_behind_string str rest =
    is_empty_of_pos (serialize_string str ++ rest)
      (omega (arith, length-append (serialize_string str) rest, length-serialize_string str))

abbrev blocks_metadata_fields : BlocksMetadata → Bytes
blocks_metadata_fields m =
    serialize_string m.block_hash
    ++ (serialize_string m.prev_block_hash ++ serialize_int 8 m.block_number)

serialize_blocks_metadata_ok :
    (m : BlocksMetadata) (raw : Bytes)
    → serialize_blocks_metadata m ≡ ok raw
    → (is_empty m.block_hash ≡ false)
      × (is_empty m.prev_block_hash ≡ false)
      × (raw ≡ blocks_metadata_fields m)
unfolding serialize_blocks_metadata
serialize_blocks_metadata_ok m raw h = ground (
  arith,
  append_assoc (serialize_string m.block_hash) (serialize_string m.prev_block_hash)
      (serialize_int 8 m.block_number),
)

deserialize_blocks_metadata_fields :
    (m : BlocksMetadata)
    → IsU64 m.block_number
    → length (blocks_metadata_fields m) < 2 ^ 64
    → deserialize_blocks_metadata (blocks_metadata_fields m) ≡ ok m
unfolding deserialize_blocks_metadata deserialize_blocks_metadata_at
deserialize_blocks_metadata_fields m k l =
    rw
      (not_empty_behind_string m.block_hash
        (serialize_string m.prev_block_hash ++ serialize_int 8 m.block_number))
      (DecodesEnd-whole
        (DecodesEnd-of_Decodes (
          Decodes-eq (simp append-nil) (
            Decodes-bind _ _ (Decodes-string m.block_hash) (
              Decodes-bind _ _ (Decodes-string m.prev_block_hash)
                (Decodes-bind _ _ (Decodes-u64 m.block_number k) (Decodes-pure _))))))
        l)

-- What `BlocksMetadata::serialize` returns is read back, if the number is in range and the string
-- not too long; it returns something only if both hashes are there.
pub deserialize_blocks_metadata-serialize_blocks_metadata :
    (m : BlocksMetadata) (raw : Bytes)
    → serialize_blocks_metadata m ≡ ok raw
    → IsU64 m.block_number
    → length raw < 2 ^ 64
    → (is_empty m.block_hash ≡ false)
      × (is_empty m.prev_block_hash ≡ false)
      × (deserialize_blocks_metadata raw ≡ ok m)
deserialize_blocks_metadata-serialize_blocks_metadata m raw h k l =
    let (a, b, e) = serialize_blocks_metadata_ok m raw h in
    (a, b, rw e (deserialize_blocks_metadata_fields m k (rw e at l)))

abbrev main_block_info_fields : MainBlockInfo → Bytes
main_block_info_fields m =
    serialize_string m.block_hash ++ (serialize_int 8 m.block_number ++ serialize_int 8 m.count_val)

serialize_main_block_info_ok :
    (m : MainBlockInfo) (raw : Bytes)
    → serialize_main_block_info m ≡ ok raw
    → (is_empty m.block_hash ≡ false) × (raw ≡ main_block_info_fields m)
unfolding serialize_main_block_info
serialize_main_block_info_ok m raw h = ground (
  arith,
  append_assoc (serialize_string m.block_hash) (serialize_int 8 m.block_number)
      (serialize_int 8 m.count_val),
)

deserialize_main_block_info_fields :
    (m : MainBlockInfo)
    → IsU64 m.block_number
    → IsU64 m.count_val
    → length (main_block_info_fields m) < 2 ^ 64
    → deserialize_main_block_info (main_block_info_fields m) ≡ ok m
unfolding deserialize_main_block_info deserialize_main_block_info_at
deserialize_main_block_info_fields m j k l =
    rw
      (not_empty_behind_string m.block_hash
        (serialize_int 8 m.block_number ++ serialize_int 8 m.count_val))
      (DecodesEnd-whole
        (DecodesEnd-of_Decodes (
          Decodes-eq (simp append-nil) (
            Decodes-bind _ _ (Decodes-string m.block_hash) (
              Decodes-bind _ _ (Decodes-u64 m.block_number j)
                (Decodes-bind _ _ (Decodes-u64 m.count_val k) (Decodes-pure _))))))
        l)

-- What `MainBlockInfo::serialize` returns is read back, if the numbers are in range and the string
-- not too long; it returns something only if the hash is there.
pub deserialize_main_block_info-serialize_main_block_info :
    (m : MainBlockInfo) (raw : Bytes)
    → serialize_main_block_info m ≡ ok raw
    → IsU64 m.block_number
    → IsU64 m.count_val
    → length raw < 2 ^ 64
    → (is_empty m.block_hash ≡ false) × (deserialize_main_block_info raw ≡ ok m)
deserialize_main_block_info-serialize_main_block_info m raw h j k l =
    let (a, e) = serialize_main_block_info_ok m raw h in
    (a, rw e (deserialize_main_block_info_fields m j k (rw e at l)))
