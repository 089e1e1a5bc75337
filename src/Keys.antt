-- ===== src/Keys.antt =====
-- The addresses of public keys and the hexadecimal numbers of src/BlockchainUtils.cpp, and the
-- signatures of src/BlockchainUtils.cpp and src/PrivateKey.cpp. OpenSSL and libsecp256k1 are the
-- parameter `Crypto`.
pub mod Hex
pub mod BlockSignature
pub mod Signatures
pub mod Signed
mod Tests
use node_infrastructure_torr.Prelude.{
  ℕ, ◌+◌, ◌-◌, ◌*◌, ◌/◌, ◌%◌, Bool, true, false, not, ◌&&◌, Bytes, List, [], ◌∷◌, ◌++◌, Option,
  none, some, codes, ltb, leb, ◌==◌, if◌then◌else◌, take, drop, length, map, concat_map, get_or,
  Result, ok, err, ◌>>=◌, ◌>>◌, check, not_set, ◌≡◌, AreBytes,
}

-- What the sources call of OpenSSL and libsecp256k1. A key or signature that was read is the bytes
-- of its number; a function that may refuse its bytes returns an option.
pub record Crypto : Type 0 where
  pub sha256 : Bytes → Bytes
  pub ripemd160 : Bytes → Bytes
  pub d2i_pubkey : Bytes → Option Bytes
  pub d2i_ecdsa_sig : Bytes → Option Bytes
  -- ECDSA_do_verify(hash, signature, key) == 1
  pub ecdsa_do_verify : Bytes → Bytes → Bytes → Bool
  -- secp256k1_ec_pubkey_parse, then secp256k1_ec_pubkey_serialize without compression
  pub secp_uncompressed : Bytes → Option Bytes

-- What the sizes of the arrays for the hashes rely on.
pub record IsCrypto (c : Crypto) : Type 0 where
  pub length_sha256 : (d : Bytes) → length (c.sha256 d) ≡ 32
  pub length_ripemd160 : (d : Bytes) → length (c.ripemd160 d) ≡ 20
  pub sha256_bytes : (d : Bytes) → AreBytes (c.sha256 d)
  pub ripemd160_bytes : (d : Bytes) → AreBytes (c.ripemd160 d)

-- The entry of DecLookup.
pub dec_lookup : ℕ → ℕ
dec_lookup c =
    if leb b'0' c && leb c b'9'
    then c - b'0'
    else if leb b'A' c && leb c b'F'
    then c - b'A' + 10
    else if leb b'a' c && leb c b'f'
    then c - b'a' + 10
    else 0

-- The loop of `hex2bin`. The entries of the table are below 16, so that the two halves of a byte do
-- not overlap; src[src.length()] is the terminator 0.
pub hex_loop : Bytes → Bytes
unfolding dec_lookup
hex_loop [] = []
hex_loop (high ∷ []) = (dec_lookup high * 16 + dec_lookup 0) ∷ []
hex_loop (high ∷ low ∷ rest) = (dec_lookup high * 16 + dec_lookup low) ∷ hex_loop rest

-- src.size() > 2 && src[0] == '0' && src[1] == 'x'
abbrev pub has_prefix : Bytes → Bool
has_prefix [] = false
has_prefix (a ∷ []) = false
has_prefix (a ∷ b ∷ []) = false
has_prefix (a ∷ b ∷ c ∷ rest) = a == b'0' && b == b'x'

pub hex2bin : Bytes → Bytes
unfolding hex_loop
hex2bin src = hex_loop (if has_prefix src then drop 2 src else src)

-- The two characters of HexLookup for a byte.
pub hex_digit : ℕ → ℕ
hex_digit n = if ltb n 10 then b'0' + n else b'a' + (n - 10)

pub hex_lookup : ℕ → Bytes
unfolding hex_digit
hex_lookup b = hex_digit (b / 16) ∷ hex_digit (b % 16) ∷ []

module _ (crypto : Crypto) where
  -- isInitialized, which `initBlockchainUtils` sets, and the bytes to hash.
  unfoldable pub get_double_sha256 : Bool → Bytes → Result Bytes
  get_double_sha256 is_initialized d =
      check is_initialized not_set >> ok (crypto.sha256 (crypto.sha256 d))

  -- wide_h and hash2, where the key is long enough. The last 65 bytes are hashed, the first of them
  -- as 4.
  unfoldable pub get_address_comp : Bool → Bytes → Result (Option (Bytes × Bytes))
  get_address_comp is_initialized pubk =
      let datasize = length pubk in
      let wide_h = 0 ∷ crypto.ripemd160 (crypto.sha256 (4 ∷ drop (datasize - 64) pubk)) in
      check is_initialized not_set
      >> ok (if leb 65 datasize then some (wide_h, crypto.sha256 (crypto.sha256 wide_h)) else none)

  pub get_address : Bool → Bytes → Result Bytes
  unfolding get_address_comp hex_lookup
  get_address is_initialized pubk = do
    res ← get_address_comp is_initialized pubk
    ok (elim res [
      | none ↦ codes "Invalid"
      | some (wide_h, hash2) ↦
          codes "0x" ++ (concat_map hex_lookup wide_h ++ concat_map hex_lookup (take 4 hash2))
    ])

  unfoldable pub get_address_bin : Bool → Bytes → Result Bytes
  unfolding get_address_comp
  get_address_bin is_initialized pubk = do
    res ← get_address_comp is_initialized pubk
    ok (elim res [ none ↦ [] | some (wide_h, hash2) ↦ wide_h ++ take 4 hash2 ])
