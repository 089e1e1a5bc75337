-- ===== src/Keys/BlockSignature.antt =====
-- The bytes of a signed block: `makeFirstPartBlockSign`, `makeBlockSign`, and the reads of
-- `checkSignatureBlock`, of src/PrivateKey.cpp.
use node_infrastructure_torr.Prelude.{ℕ, Bytes, ◌++◌}
use node_infrastructure_torr.Serialize.{serialize_int, serialize_string, deserialize_string}
use node_infrastructure_torr.Serialize.Cursor.{Cursor, pure, ◌>>=◌}

-- BlockSignatureCheckResult
pub record BlockSignature : Type 0 where
  pub block : Bytes
  pub sign : Bytes
  pub pubkey : Bytes
  pub address : Bytes

-- makeFirstPartBlockSign(blockSize)
unfoldable pub make_first_part_block_sign : ℕ → Bytes
make_first_part_block_sign block_size = serialize_int 8 block_size

-- makeBlockSign, of the signature of the block, of the key and of its address
unfoldable pub make_block_sign : Bytes → Bytes → Bytes → Bytes
make_block_sign sign pubkey address =
    serialize_string sign ++ (serialize_string pubkey ++ serialize_string address)

-- The four strings that `checkSignatureBlock` reads.
unfoldable pub read_block_signature : Cursor BlockSignature
read_block_signature = do
  block ← deserialize_string
  sign ← deserialize_string
  pubkey ← deserialize_string
  address ← deserialize_string
  pure (record { block = block; sign = sign; pubkey = pubkey; address = address })
