-- ===== src/BlockInfo/Transactions.antt =====
-- The methods of `TransactionInfo` and `BlockInfo` in src/BlockInfo.cpp that compute, and the
-- functions on lists of transactions behind them.
pub mod MaxBlock
use node_infrastructure_torr.Prelude.{
  ℕ, zero, suc, ◌+◌, ◌-◌, ◌^◌, ◌%◌, max, Bool, true, false, not, ◌&&◌, ◌||◌, List, [], ◌∷◌, Option,
  none, some, ltb, ◌==◌, if◌then◌else◌, Result, ok, ◌>>◌, check, not_set,
}
use node_infrastructure_torr.BlockInfo.Records.{TransactionInfo, TransactionStatus, BlockInfo}

abbrev pub tx_state_wrong_money : ℕ
tx_state_wrong_money = 30

abbrev pub tx_state_wrong_data : ℕ
tx_state_wrong_data = 40

abbrev pub tx_state_forging : ℕ
tx_state_forging = 100

abbrev pub tx_state_forging_w : ℕ
tx_state_forging_w = 101

abbrev pub tx_state_forging_n : ℕ
tx_state_forging_n = 102

abbrev pub tx_state_forging_c : ℕ
tx_state_forging_c = 103

abbrev pub tx_state_forging_a : ℕ
tx_state_forging_a = 104

abbrev pub tx_state_tech_node_stat : ℕ
tx_state_tech_node_stat = 0x1101

-- calcRealFee()
unfoldable pub calc_real_fee : TransactionInfo → Result TransactionInfo
calc_real_fee t =
    check (ltb 0 t.size_raw_tx) not_set
    >> ok (record t { real_fees = some (if ltb 255 t.size_raw_tx then t.size_raw_tx - 255 else 0) })

abbrev has_value {ℓ} : {A : Type ℓ} → Option A → Bool
has_value none = false
has_value (some a) = true

-- isStatusNeed()
pub is_status_need : TransactionInfo → Bool
is_status_need t = has_value t.delegate_info || has_value t.script_info

-- intStatus.has_value() && ...
abbrev status_is : (ℕ → Bool) → Option ℕ → Bool
status_is test none = false
status_is test (some n) = test n

pub is_int_status_no_balance : TransactionInfo → Bool
is_int_status_no_balance t = status_is (λ n. n == tx_state_wrong_money) t.int_status

pub is_int_status_not_success : TransactionInfo → Bool
is_int_status_not_success t =
    status_is (λ n. n == tx_state_wrong_money || n == tx_state_wrong_data) t.int_status

abbrev pub get_forging_int_statuses : List ℕ
get_forging_int_statuses =
    tx_state_forging ∷ tx_state_forging_w ∷ tx_state_forging_n ∷ tx_state_forging_c
    ∷ tx_state_forging_a ∷ []

abbrev is_among : List ℕ → ℕ → Bool
is_among [] n = false
is_among (m ∷ rest) n = m == n || is_among rest n

pub is_int_status_forging : TransactionInfo → Bool
is_int_status_forging t = status_is (is_among get_forging_int_statuses) t.int_status

pub is_int_status_node_test : TransactionInfo → Bool
is_int_status_node_test t = status_is (λ n. n == tx_state_tech_node_stat) t.int_status

-- getBlockSignatures()
pub get_block_signatures : List TransactionInfo → List TransactionInfo
get_block_signatures [] = []
get_block_signatures (t ∷ rest) =
    let signatures = get_block_signatures rest in
    if t.is_sign_block_tx then t ∷ signatures else signatures

-- infos.back(), of a list that begins with `first`
abbrev pub back {ℓ} : {A : Type ℓ} → A → List A → A
back first [] = first
back first (t ∷ rest) = back t rest

-- getMaxBlockNumber(infos), by the block number of an info. The source has it once for
-- `TransactionInfo` and once for `TransactionStatus`.
pub get_max_block_number {ℓ} : {A : Type ℓ} → (A → ℕ) → List A → ℕ
get_max_block_number number [] = 0
get_max_block_number number (first ∷ rest) = max (number first) (number (back first rest))

-- isGreater(infos, blockNumber)
pub is_greater {ℓ} : {A : Type ℓ} → (A → ℕ) → List A → ℕ → Bool
unfolding get_max_block_number
is_greater number [] block_number = false
is_greater number (first ∷ rest) block_number =
    ltb block_number (get_max_block_number number (first ∷ rest))
