-- ===== src/BlockRead/Transaction.antt =====
-- `readTransactionInfo` of src/BlockchainRead.cpp. RapidJSON is a parameter: what the source asks of
-- a parsed document. The functions of OpenSSL are the parameter `Crypto`, and the library is
-- initialized.
use node_infrastructure_torr.Prelude.{
  ℕ, ◌+◌, ◌-◌, ◌*◌, ◌^◌, ◌%◌, Bool, true, false, not, ◌&&◌, ◌||◌, Bytes, [], ◌∷◌, codes, bytes_eq,
  is_empty, Option, some, none, ltb, leb, ◌==◌, if◌then◌else◌, length, Result, ok, ◌>>=◌, ◌>>◌,
  check, end_of_array, incorrect_type, not_success,
}
use node_infrastructure_torr.Address.{
  Address, address_of_vector, address_of_range, address_eq, set_empty, is_initial_wallet,
  is_script_address,
}
use node_infrastructure_torr.BlockInfo.Records.{TransactionInfo, DelegateInfo, ScriptInfo}
use node_infrastructure_torr.BlockInfo.Transactions.{calc_real_fee, back}
use node_infrastructure_torr.Keys.{Crypto, get_double_sha256, get_address_bin}
use node_infrastructure_torr.Keys.Signatures.{check_sign}
use node_infrastructure_torr.BlockRead.{forward, slice, read_var_int}
use node_infrastructure_torr.BlockRead.Fields.{RawTransaction, read_fields}

-- Of a document that was parsed: doc["method"].GetString(), where it is a member and a string, and
-- doc["params"]["value"].GetString(), where "params" is an object with such a member.
pub record Document : Type 0 where
  pub method : Option Bytes
  pub params_value : Option Bytes

-- What is not in the sources: the hashes and signatures, doc.Parse, and the bytes that
-- `DelegateInfo::value` has before it is set.
pub record Libraries : Type 0 where
  pub crypto : Crypto
  pub parse_json : Bytes → Option Document
  pub unset_value : ℕ
  -- toHex of the submodule common_utils
  pub to_hex : Bytes → Bytes

-- std::stoull behind the white space and the sign: the number of the leading digits
unfoldable pub digits_number : ℕ → Bytes → ℕ
digits_number value [] = value
digits_number value (c ∷ rest) =
    let further = digits_number (value * 10 + (c - b'0')) rest in
    if leb b'0' c && leb c b'9' then further else value

abbrev starts_with_digit : Bytes → Bool
starts_with_digit [] = false
starts_with_digit (c ∷ rest) = leb b'0' c && leb c b'9'

-- No digit, and a number of more than 64 bits, throw.
unfoldable pub unsigned_number : Bytes → Option ℕ
unfolding digits_number
unsigned_number text =
    if starts_with_digit text && ltb (digits_number 0 text) (2 ^ 64)
    then some (digits_number 0 text)
    else none

-- A minus sign negates the number in 64 bits.
unfoldable pub signed_number : Bytes → Option ℕ
unfolding unsigned_number
signed_number [] = none
signed_number (c ∷ rest) =
    if c == b'-'
    then elim (unsigned_number rest) [ none ↦ none | some n ↦ some ((2 ^ 64 - n) % 2 ^ 64) ]
    else if c == b'+'
    then unsigned_number rest
    else unsigned_number (c ∷ rest)

-- std::stoull(text), or nothing where it throws
unfoldable pub stoull : Bytes → Option ℕ
unfolding signed_number
stoull [] = none
stoull (c ∷ rest) =
    let behind = stoull rest in
    if c == 32 || (leb 9 c && leb c 13) then behind else signed_number (c ∷ rest)

-- data[0] == '{' && data[data.size() - 1] == '}'
abbrev in_braces : Bytes → Bool
in_braces [] = false
in_braces (first ∷ rest) = first == b'{' && back first rest == b'}'

-- dataSize == 9 && data[0] == 1
abbrev is_blocked : Bytes → Bool
is_blocked [] = false
is_blocked (first ∷ rest) = length (first ∷ rest) == 9 && first == 1

-- A member that keeps its value where there is no new one.
abbrev or_old {ℓ} : {A : Type ℓ} → Option A → Option A → Option A
or_old none old = old
or_old (some new) old = some new

-- txInfo.pubKey: it stays where the transaction has no key.
unfoldable pub public_key : RawTransaction → TransactionInfo → Bytes
public_key t tx_info = if is_empty t.pub_key then tx_info.pub_key else t.pub_key

module _ (libraries : Libraries) where
  open libraries use {crypto, parse_json, unset_value}

  -- The document in the data, where they are one.
  pub document : Bytes → Option Document
  document tx_data = if in_braces tx_data then parse_json tx_data else none

  pub delegate_of : Document → Option DelegateInfo
  unfolding stoull
  delegate_of doc = elim doc.method [
    | none ↦ none
    | some method ↦
        if bytes_eq method (codes "delegate")
        then elim doc.params_value [
          | none ↦ none
          | some text ↦ elim (stoull text) [
            | none ↦ none
            | some value ↦ some (record { value = value; is_delegate = true })
          ]
        ]
        else if bytes_eq method (codes "undelegate")
        then some (record { value = unset_value; is_delegate = false })
        else none
  ]

  -- txInfo.delegate; a transaction from a blocked address is not looked at.
  pub find_delegate : Bytes → Option DelegateInfo
  unfolding document delegate_of
  find_delegate tx_data =
      if is_blocked tx_data
      then none
      else elim (document tx_data) [ none ↦ none | some doc ↦ delegate_of doc ]

  -- isInitializeScript
  pub is_compile : Bytes → Bool
  unfolding document
  is_compile tx_data = elim (document tx_data) [
    | none ↦ false
    | some doc ↦ elim doc.method [ none ↦ false | some method ↦ bytes_eq method (codes "compile") ]
  ]

  -- txInfo.scriptInfo; one that was there gets the bytes of this transaction.
  pub find_script : Bool → Bytes → Bytes → Option ScriptInfo → Option ScriptInfo
  unfolding is_compile
  find_script is_script tx_raw tx_data old =
      if is_script
      then some (record { tx_raw = tx_raw; is_initialize_script = is_compile tx_data })
      else elim old [ none ↦ none | some s ↦ some (record s { tx_raw = tx_raw }) ]

  -- fromAddress
  unfoldable pub sender : RawTransaction → TransactionInfo → Result Address
  unfolding public_key
  sender t tx_info =
      if is_empty (public_key t tx_info) then ok (set_empty tx_info.from_address) else do
        bin_address ← get_address_bin crypto true (public_key t tx_info)
        check (not (is_empty bin_address)) incorrect_type
        address_of_vector bin_address (is_blocked t.tx_data)

-- PrevTransactionSignHelper
pub record PrevTransactionSignHelper : Type 0 where
  pub is_first : Bool
  pub is_prev_sign : Bool
  pub prev_tx_data : Bytes

-- isSignBlockTx(txInfo, helper)
unfoldable pub is_sign_block_tx : TransactionInfo → PrevTransactionSignHelper → Result Bool
is_sign_block_tx tx_info helper = if not helper.is_prev_sign then ok false else do
  same ← address_eq tx_info.from_address tx_info.to_address
  ok (
      same
      && (tx_info.value == 0
          && (helper.is_first
              || (bytes_eq tx_info.tx_data helper.prev_tx_data && not (is_empty tx_info.tx_data)))))

module _ (libraries : Libraries) where
  open libraries use {crypto}

  -- if (isValidate) ...
  unfoldable pub validate : Bool → TransactionInfo → Bytes → Result (Unit {0})
  validate is_validate tx_info clear = if not is_validate then ok tt else do
    initial ← is_initial_wallet tx_info.from_address
    check (initial || check_sign crypto clear tx_info.sign tx_info.pub_key) not_success

  -- The members that are set before the signature is looked at. `clear` is from the start of the
  -- transaction to the end of its data, `all_raw` is all of it.
  pub filled_transaction :
      Bool
      → RawTransaction
      → Bool
      → Address
      → Bytes
      → Bytes
      → Bytes
      → ℕ
      → TransactionInfo
      → TransactionInfo
  filled_transaction is_save_all_tx t is_script from_address tx_hash clear all_raw tx_size tx_info =
      record tx_info {
        to_address = address_of_range t.to_address;
        value = t.value;
        fees = t.fees;
        nonce = t.nonce;
        tx_data = t.tx_data;
        delegate_info = or_old (find_delegate libraries t.tx_data) tx_info.delegate_info;
        script_info = find_script libraries is_script clear t.tx_data tx_info.script_info;
        is_module_not_set = is_script || tx_info.is_module_not_set;
        sign = t.sign;
        pub_key = public_key t tx_info;
        int_status = or_old t.int_status tx_info.int_status;
        from_address = from_address;
        hash = tx_hash;
        size_raw_tx = tx_size;
        all_raw_tx = if is_save_all_tx then all_raw else tx_info.all_raw_tx;
      }

  unfoldable pub finish_transaction :
      Bool → PrevTransactionSignHelper → Bytes → TransactionInfo → Result TransactionInfo
  finish_transaction is_validate helper clear filled = do
    is_sign ← is_sign_block_tx filled helper
    validate is_validate filled clear
    tx_info ← calc_real_fee (record filled { is_sign_block_tx = is_sign })
    ok (record tx_info { is_initialized = true })

  -- What follows the reads: the bytes of the transaction are from `tx_start` on, and those of all of
  -- it from `all_start` to `all_end`.
  unfoldable pub fill_transaction :
      Bytes
      → Bool
      → Bool
      → PrevTransactionSignHelper
      → ℕ
      → ℕ
      → ℕ
      → ℕ
      → RawTransaction
      → TransactionInfo
      → Result TransactionInfo
  fill_transaction raw is_save_all_tx is_validate helper tx_size all_start tx_start all_end t
        tx_info =
      do
        is_script ← is_script_address (address_of_range t.to_address)
        from_address ← sender libraries t tx_info
        hashed ← slice raw tx_start t.hash_size
        tx_hash ← get_double_sha256 crypto true hashed
        clear ← slice raw tx_start (t.end_clear_tx - tx_start)
        all_raw ← slice raw all_start (all_end - all_start)
        finish_transaction is_validate helper clear (
            filled_transaction is_save_all_tx t is_script from_address tx_hash clear all_raw tx_size
              tx_info)

  -- readTransactionInfo(...): the size, the new position and the transaction
  unfoldable pub read_transaction_info :
      Bytes
      → ℕ
      → ℕ
      → TransactionInfo
      → Bool
      → Bool
      → PrevTransactionSignHelper
      → Bool
      → Result ((ℕ × TransactionInfo) × ℕ)
  read_transaction_info raw end_pos cur_pos tx_info is_parse_tx is_save_all_tx helper is_validate =
      do
        (tx_size, tx_start) ← read_var_int raw end_pos cur_pos
        if tx_size == 0 then ok ((0, tx_info), tx_start) else do
          tx_end ← forward tx_start tx_size
          check (leb tx_end end_pos) end_of_array
          if not is_parse_tx then ok ((tx_size, tx_info), tx_end) else do
            (t, all_end) ← read_fields raw tx_end tx_size tx_start
            filled ←
                fill_transaction raw is_save_all_tx is_validate helper tx_size cur_pos tx_start
                  all_end t tx_info
            ok ((tx_size, filled), all_end)
