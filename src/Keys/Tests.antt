-- ===== src/Keys/Tests.antt =====
-- The theorems on keys and signatures with concrete functions for OpenSSL and libsecp256k1: a hash
-- that is made of its first byte, keys and signatures that are their bytes, and a signature that
-- is right if it is the hash.
use node_infrastructure_torr.Prelude.{
  ℕ, ◌^◌, ◌<◌, ◌≡◌, ◌⊎◌, refl, arith, true, Bytes, [], ◌∷◌, ◌++◌, some, codes, bytes_eq, length,
  replicate, get_or, ◌%◌, ok, concat_map,
}
use node_infrastructure_torr.Serialize.{serialize_int, serialize_string}
use node_infrastructure_torr.Serialize.Cursor.{whole}
use node_infrastructure_torr.Keys.{Crypto, hex2bin, get_address, get_address_comp, hex_lookup}
use node_infrastructure_torr.Keys.BlockSignature.{
  read_block_signature, make_block_sign, make_first_part_block_sign,
}
use node_infrastructure_torr.Keys.Signatures.{
  check_sign, make_address_from_secp_key, check_signature_block,
}
use node_infrastructure_torr.Keys.Signed.{
  signed, message, check_signature_block-make_block_sign, check_signature_block_sound,
}

abbrev first_byte : Bytes → ℕ
first_byte d = get_or d 0 0 % 256

abbrev toy : Crypto
toy = record {
  sha256 = λ d. replicate 32 (first_byte d);
  ripemd160 = λ d. replicate 20 (first_byte d);
  d2i_pubkey = λ k. some k;
  d2i_ecdsa_sig = λ s. some s;
  ecdsa_do_verify = λ h s k. bytes_eq h s;
  secp_uncompressed = λ k. some k;
}

abbrev key : Bytes
key = replicate 65 9

abbrev block : Bytes
block = 5 ∷ 6 ∷ []

abbrev signature : Bytes
signature = replicate 32 5

abbrev key_address : Bytes
key_address =
    codes "0x"
    ++ (concat_map hex_lookup (0 ∷ replicate 20 4) ++ concat_map hex_lookup (replicate 4 0))

key_address_lem : make_address_from_secp_key toy key ≡ ok key_address
unfolding make_address_from_secp_key get_address get_address_comp
key_address_lem = refl

signature_lem : check_sign toy block signature key ≡ true
unfolding check_sign bytes_eq
signature_lem = refl

length-message : length (message block signature key key_address) < 2 ^ 64
unfolding make_first_part_block_sign make_block_sign serialize_int serialize_string hex_lookup
length-message = omega arith

check_signature_block-make_block_sign_example :
    check_signature_block toy (message block signature key key_address)
    ≡ ok (signed block signature key key_address)
check_signature_block-make_block_sign_example =
    check_signature_block-make_block_sign block signature key key_address toy signature_lem
      key_address_lem length-message

check_signature_block_sound_example :
    (whole read_block_signature (message block signature key key_address)
      ≡ ok (signed block signature key key_address))
    × (check_sign toy block signature key ≡ true)
    × ((make_address_from_secp_key toy key ≡ ok key_address)
        ⊎ (get_address toy true key ≡ ok key_address))
check_signature_block_sound_example =
    check_signature_block_sound toy (message block signature key key_address)
      check_signature_block-make_block_sign_example

-- An odd digit is the upper half of its byte.
odd_digits : hex2bin (codes "0xaBc") ≡ 0xab ∷ 0xc0 ∷ []
unfolding hex2bin
odd_digits = refl
