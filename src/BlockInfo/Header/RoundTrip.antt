-- ===== src/BlockInfo/Header/RoundTrip.antt =====
-- The codec of `BlockHeader` reads back what it writes.
use node_infrastructure_torr.Prelude.{
  ℕ, ◌^◌, ◌<◌, ◌≡◌, arith, Bytes, ◌++◌, append-nil, append_assoc, length, ok, is_empty, false, some,
  none,
}
use node_infrastructure_torr.Serialize.{serialize_int, serialize_string}
use node_infrastructure_torr.Serialize.Cursor.{
  Decodes, Decodes-pure, Decodes-bind, Decodes-eq, DecodesEnd-of_Decodes, DecodesEnd-whole,
}
use node_infrastructure_torr.Serialize.RoundTrip.{IsU64, Decodes-u64, Decodes-string}
use node_infrastructure_torr.BlockInfo.Records.{BlockHeader}
use node_infrastructure_torr.BlockInfo.Codec.{serialize_file_position}
use node_infrastructure_torr.BlockInfo.Codec.RoundTrip.{Decodes-file_position}
use node_infrastructure_torr.BlockInfo.Header.{
  serialize_block_header, deserialize_block_header_at, deserialize_block_header,
}

-- The numbers of a header fit their types.
pub record IsInRange (h : BlockHeader) : Type 0 where
  pub pos : IsU64 h.file_pos.pos
  pub block_size : IsU64 h.block_size
  pub block_type : IsU64 h.block_type
  pub timestamp : IsU64 h.timestamp

-- A header as it comes back: the members that are not written have their initial values.
abbrev pub stored : BlockHeader → ℕ → BlockHeader
stored h count_txs = record h { count_txs = some count_txs; end_block_pos = 0; block_number = none }

block_header_fields : BlockHeader → ℕ → Bytes
block_header_fields h count_txs =
    serialize_file_position h.file_pos
    ++ (serialize_string h.prev_hash
        ++ (serialize_string h.hash
            ++ (serialize_string h.txs_hash
                ++ (serialize_string h.signature
                    ++ (serialize_int 8 h.block_size
                        ++ (serialize_int 8 h.block_type
                            ++ (serialize_int 8 h.timestamp
                                ++ (serialize_int 8 count_txs
                                    ++ (serialize_string h.sender_sign
                                        ++ (serialize_string h.sender_pubkey
                                            ++ serialize_string h.sender_address))))))))))

Decodes-block_header :
    (h : BlockHeader) (count_txs : ℕ)
    → IsInRange h
    → IsU64 count_txs
    → Decodes deserialize_block_header_at (block_header_fields h count_txs) (stored h count_txs)
unfolding deserialize_block_header_at block_header_fields
Decodes-block_header h count_txs r c = Decodes-eq (simp append-nil) (
    Decodes-bind _ _ (Decodes-file_position h.file_pos r.pos) (
      Decodes-bind _ _ (Decodes-string h.prev_hash) (
        Decodes-bind _ _ (Decodes-string h.hash) (
          Decodes-bind _ _ (Decodes-string h.txs_hash) (
            Decodes-bind _ _ (Decodes-string h.signature) (
              Decodes-bind _ _ (Decodes-u64 h.block_size r.block_size) (
                Decodes-bind _ _ (Decodes-u64 h.block_type r.block_type) (
                  Decodes-bind _ _ (Decodes-u64 h.timestamp r.timestamp) (
                    Decodes-bind _ _ (Decodes-u64 count_txs c) (
                      Decodes-bind _ _ (Decodes-string h.sender_sign) (
                        Decodes-bind _ _ (Decodes-string h.sender_pubkey) (
                          Decodes-bind _ _ (Decodes-string h.sender_address)
                            (Decodes-pure _)))))))))))))

serialize_block_header_ok :
    (h : BlockHeader) (raw : Bytes) (count_txs : ℕ)
    → h.count_txs ≡ some count_txs
    → serialize_block_header h ≡ ok raw
    → (is_empty h.hash ≡ false)
      × (is_empty h.prev_hash ≡ false)
      × (raw ≡ block_header_fields h count_txs)
unfolding serialize_block_header block_header_fields
serialize_block_header_ok h raw count_txs c e = let e' = simp append_assoc at e in ground arith

-- What `BlockHeader::serialize` returns of a header with a count of transactions is read back, if
-- the numbers are in range and the string is not too long: all members but the block number and the
-- end of the block, which are not written. It returns something only if both hashes are there.
pub deserialize_block_header-serialize_block_header :
    (h : BlockHeader) (raw : Bytes) (count_txs : ℕ)
    → serialize_block_header h ≡ ok raw
    → h.count_txs ≡ some count_txs
    → IsInRange h
    → IsU64 count_txs
    → length raw < 2 ^ 64
    → (is_empty h.hash ≡ false)
      × (is_empty h.prev_hash ≡ false)
      × (deserialize_block_header raw ≡ ok (stored h count_txs))
unfolding deserialize_block_header
deserialize_block_header-serialize_block_header h raw count_txs e c r b l =
    let (p, q, w) = serialize_block_header_ok h raw count_txs c e in
    (
      p,
      q,
      rw w (
          DecodesEnd-whole (DecodesEnd-of_Decodes (Decodes-block_header h count_txs r b))
            (rw w at l)),
    )
