-- ===== src/Address.antt =====
-- src/Address.h, src/Address.cpp: an address as bytes, with its two flags. `fromHex` and `toHex` of
-- the submodule common_utils are parameters of the operations that call them.
pub mod Order
mod Tests
use node_infrastructure_torr.Prelude.{
  ℕ, zero, suc, ◌≡◌, Bool, true, false, not, ◌&&◌, ◌||◌, Bytes, [], ◌∷◌, ◌++◌, codes, bytes_eq,
  is_empty, ltb, ◌==◌, if◌then◌else◌, take, Result, ok, err, fault, ◌>>=◌, ◌>>◌, check, not_set,
  empty_name, incorrect_type,
}

pub record Address : Type 0 where
  pub address : Bytes
  pub is_initial_w : Bool
  pub is_set : Bool

abbrev pub initial_wallet_transaction : Bytes
initial_wallet_transaction = codes "InitialWalletTransaction"

-- The default constructor.
unfoldable pub unset_address : Address
unset_address = record { address = []; is_initial_w = false; is_set = false }

-- this->address[0] = 1; on an empty string this writes to the terminator, which is undefined.
abbrev write_first : Bytes → Result Bytes
write_first [] = fault
write_first (b ∷ bs) = ok (1 ∷ bs)

-- Address(const std::vector<unsigned char> &, bool isBlockedAddress)
unfoldable pub address_of_vector : Bytes → Bool → Result Address
address_of_vector bytes is_blocked = do
  bytes' ← if is_blocked then write_first bytes else ok bytes
  ok (record { address = bytes'; is_initial_w = false; is_set = true })

-- Address(Iterator begin, Iterator end)
unfoldable pub address_of_range : Bytes → Address
address_of_range bytes = record { address = bytes; is_initial_w = false; is_set = true }

-- Address(const std::string &hexAddress)
pub address_of_hex : (Bytes → Result Bytes) → Bytes → Result Address
unfolding bytes_eq
address_of_hex from_hex hex = do
  check (not (is_empty hex)) empty_name
  check (bytes_eq (take 2 hex) (codes "0x")) incorrect_type
  bytes ← from_hex hex
  ok (record { address = bytes; is_initial_w = false; is_set = true })

-- operator==
unfoldable pub address_eq : Address → Address → Result Bool
address_eq a b = do
  check a.is_set not_set
  check b.is_set not_set
  ok (bytes_eq a.address b.address)

-- `std::string` compares its bytes as unsigned numbers, and a proper prefix is smaller.
unfoldable pub bytes_lt : Bytes → Bytes → Bool
bytes_lt [] [] = false
bytes_lt [] (y ∷ ys) = true
bytes_lt (x ∷ xs) [] = false
bytes_lt (x ∷ xs) (y ∷ ys) = ltb x y || (x == y && bytes_lt xs ys)

-- operator<
pub address_lt : Address → Address → Result Bool
unfolding bytes_lt
address_lt a b = do
  check a.is_set not_set
  check b.is_set not_set
  ok (bytes_lt a.address b.address)

unfoldable pub get_binary_string : Address → Result Bytes
get_binary_string a = do
  check a.is_set not_set
  ok (if is_empty a.address then initial_wallet_transaction else a.address)

unfoldable pub to_bd_string : Address → Result Bytes
unfolding get_binary_string
to_bd_string a = get_binary_string a

pub calc_hex_string : (Bytes → Bytes) → Address → Result Bytes
calc_hex_string to_hex a = do
  check a.is_set not_set
  ok (if is_empty a.address then initial_wallet_transaction else codes "0x" ++ to_hex a.address)

unfoldable pub set_empty : Address → Address
set_empty a = record { address = []; is_initial_w = true; is_set = true }

unfoldable pub address_is_empty : Address → Result Bool
address_is_empty a = do check a.is_set not_set; ok (is_empty a.address)

unfoldable pub is_initial_wallet : Address → Result Bool
is_initial_wallet a = do check a.is_set not_set; ok a.is_initial_w

abbrev first_is : ℕ → Bytes → Bool
first_is n [] = false
first_is n (b ∷ bs) = b == n

-- address[0] == 8, where the terminator of an empty string is not 8
unfoldable pub is_script_address : Address → Result Bool
is_script_address a = do check a.is_set not_set; ok (first_is 8 a.address)
