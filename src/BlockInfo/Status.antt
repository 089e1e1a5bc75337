-- ===== src/BlockInfo/Status.antt =====
-- The codec of `TransactionStatus` in src/BlockInfo.cpp: a variant behind its index. What a buffer
-- holds when a method throws is not modelled.
pub mod RoundTrip
mod Tests
use node_infrastructure_torr.Prelude.{
  ℕ, zero, suc, Bool, true, false, not, ◌&&◌, Bytes, [], is_empty, ltb, ◌==◌, if◌then◌else◌, Result,
  ok, ◌>>=◌ as ◌>>=R◌, check, not_set, incorrect_type,
}
use node_infrastructure_torr.Serialize.{
  serialize_int_into, serialize_string_into, deserialize_int, deserialize_string,
}
use node_infrastructure_torr.Serialize.Cursor.{Cursor, ◌>>=◌, ◌>>◌, pure, require, whole}
use node_infrastructure_torr.Address.{
  Address, address_of_range, unset_address, set_empty, address_is_empty, get_binary_string,
}
use node_infrastructure_torr.BlockInfo.Records.{
  UnDelegate, V8Status, Status, monostate, delegate, un_delegate, v8_status, TransactionStatus,
}

-- A `bool` as a number, and a number as a `bool`.
abbrev pub bit : Bool → ℕ
bit true = 1
bit false = 0

abbrev pub to_bool : ℕ → Bool
to_bool n = not (n == 0)

-- UnDelegate::serialize(buffer)
pub serialize_un_delegate : UnDelegate → Bytes → Bytes
serialize_un_delegate u buffer =
    serialize_string_into u.delegate_hash (serialize_int_into 8 u.value buffer)

-- UnDelegate::deserialize(raw, fromPos)
pub deserialize_un_delegate : Cursor UnDelegate
deserialize_un_delegate = do
  value ← deserialize_int 8
  delegate_hash ← deserialize_string
  pure (record { value = value; delegate_hash = delegate_hash })

append_address : Address → Bytes → Result Bytes
append_address a buffer = address_is_empty a >>=R λ empty.
    if not empty
    then (get_binary_string a >>=R λ bytes. ok (serialize_string_into bytes buffer))
    else ok (serialize_string_into [] buffer)

-- V8Status::serialize(buffer)
pub serialize_v8_status : V8Status → Bytes → Result Bytes
serialize_v8_status s buffer = append_address s.compiled_contract_address (
    serialize_int_into 1 (bit s.is_script_error)
      (serialize_int_into 1 (bit s.is_server_error) buffer))

address_of_field : Bytes → Address
address_of_field bytes =
    if not (is_empty bytes) then address_of_range bytes else set_empty unset_address

-- V8Status::deserialize(raw, fromPos)
pub deserialize_v8_status : Cursor V8Status
deserialize_v8_status = do
  is_server_error ← deserialize_int 1
  is_script_error ← deserialize_int 1
  address_string ← deserialize_string
  pure (record {
    is_server_error = to_bool is_server_error;
    is_script_error = to_bool is_script_error;
    compiled_contract_address = address_of_field address_string;
  })

-- status.index()
abbrev pub index : Status → ℕ
index monostate = 0
index delegate = 1
index (un_delegate u) = 2
index (v8_status s) = 3

-- The alternative's own `serialize`; that of `Delegate` writes nothing.
visit_serialize : Status → Bytes → Result Bytes
visit_serialize monostate buffer = ok buffer
visit_serialize delegate buffer = ok buffer
visit_serialize (un_delegate u) buffer = ok (serialize_un_delegate u buffer)
visit_serialize (v8_status s) buffer = serialize_v8_status s buffer

-- TransactionStatus::serialize(buffer)
pub serialize_transaction_status : TransactionStatus → Bytes → Result Bytes
serialize_transaction_status t buffer =
    let cleared : Bytes = [] in
    let success = serialize_int_into 1 (bit t.is_success) cleared in
    let fields =
      serialize_string_into t.transaction (serialize_int_into 8 t.block_number success) in
    check (not (index t.status == 0)) not_set >>=R λ _.
    visit_serialize t.status (serialize_int_into 8 (index t.status) fields)

-- `deserialize` of the alternative with this index, assigned to `status`.
parse_alternative : ℕ → Status → Cursor Status
parse_alternative zero status = pure status
parse_alternative (suc zero) status = pure delegate
parse_alternative (suc (suc zero)) status = do u ← deserialize_un_delegate; pure (un_delegate u)
parse_alternative (suc (suc (suc i))) status = do s ← deserialize_v8_status; pure (v8_status s)

-- tryParse<I>(raw, fromPos, number)
try_parse : ℕ → ℕ → Status → Cursor Status
try_parse i number status = if i == number then parse_alternative i status else pure status

-- parseVarint(raw, fromPos, number, std::index_sequence<0, 1, 2, 3>)
pub parse_varint : ℕ → Cursor Status
parse_varint number = do
  s0 ← try_parse 0 number monostate
  s1 ← try_parse 1 number s0
  s2 ← try_parse 2 number s1
  try_parse 3 number s2

pub deserialize_transaction_status_at : Cursor TransactionStatus
deserialize_transaction_status_at = do
  is_success ← deserialize_int 1
  block_number ← deserialize_int 8
  transaction ← deserialize_string
  number ← deserialize_int 8
  require (not (number == 0) && ltb number 4) incorrect_type
  status ← parse_varint number
  pure (record {
    is_success = to_bool is_success;
    transaction = transaction;
    block_number = block_number;
    status = status;
  })

-- TransactionStatus::deserialize(raw)
pub deserialize_transaction_status : Bytes → Result TransactionStatus
deserialize_transaction_status = whole deserialize_transaction_status_at
