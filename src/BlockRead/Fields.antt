-- ===== src/BlockRead/Fields.antt =====
-- The fields of a transaction in its bytes: the reads of `readTransactionInfo` in
-- src/BlockchainRead.cpp.
use node_infrastructure_torr.Prelude.{
  ℕ, ◌+◌, ◌-◌, Bytes, Option, some, none, ltb, if◌then◌else◌, Result, ok, ◌>>=◌,
}
use node_infrastructure_torr.BlockRead.{slice, read_var_int, read_bytes}

-- What is read of a transaction. `hash_size` is `tx_hash_size`, `end_clear_tx` is `endClearTx`.
pub record RawTransaction : Type 0 where
  pub to_address : Bytes
  pub value : ℕ
  pub fees : ℕ
  pub nonce : ℕ
  pub tx_data : Bytes
  pub end_clear_tx : ℕ
  pub sign : Bytes
  pub pub_key : Bytes
  pub int_status : Option ℕ
  pub hash_size : ℕ

-- What stands before the data.
pub record TransactionHead : Type 0 where
  pub to_address : Bytes
  pub value : ℕ
  pub fees : ℕ
  pub nonce : ℕ
  pub data_size : ℕ

unfoldable pub read_head : Bytes → ℕ → ℕ → Result (TransactionHead × ℕ)
read_head raw end_pos tx_start = do
  (to_address, pos) ← read_bytes 25 raw end_pos tx_start
  (value, pos) ← read_var_int raw end_pos pos
  (fees, pos) ← read_var_int raw end_pos pos
  (nonce, pos) ← read_var_int raw end_pos pos
  (data_size, pos) ← read_var_int raw end_pos pos
  ok (
    record {
      to_address = to_address;
      value = value;
      fees = fees;
      nonce = nonce;
      data_size = data_size;
    },
    pos,
  )

-- The status that may stand at the end, and what its bytes take off `tx_hash_size`.
unfoldable pub read_int_status : Bytes → ℕ → ℕ → ℕ → Result ((Option ℕ × ℕ) × ℕ)
read_int_status raw end_pos tx_size pos =
    if ltb pos end_pos
    then (do
      (int_status, pos') ← read_var_int raw end_pos pos
      ok ((some int_status, tx_size - (pos' - pos)), pos'))
    else ok ((none, tx_size), pos)

-- The fields, and the position behind them, of a transaction between `tx_start` and `end_pos`. The
-- data are copied without a look at the end of the transaction.
unfoldable pub read_fields : Bytes → ℕ → ℕ → ℕ → Result (RawTransaction × ℕ)
read_fields raw end_pos tx_size tx_start = do
  (head, pos) ← read_head raw end_pos tx_start
  tx_data ← slice raw pos head.data_size
  (sign_size, sign_pos) ← read_var_int raw end_pos (pos + head.data_size)
  (sign, key_pos) ← read_bytes sign_size raw end_pos sign_pos
  (pubkey_size, pubkey_pos) ← read_var_int raw end_pos key_pos
  (pub_key, status_pos) ← read_bytes pubkey_size raw end_pos pubkey_pos
  ((int_status, hash_size), pos') ← read_int_status raw end_pos tx_size status_pos
  ok (
    record {
      to_address = head.to_address;
      value = head.value;
      fees = head.fees;
      nonce = head.nonce;
      tx_data = tx_data;
      end_clear_tx = pos + head.data_size;
      sign = sign;
      pub_key = pub_key;
      int_status = int_status;
      hash_size = hash_size;
    },
    pos',
  )
