-- ===== src/BlockInfo/Status/Tests.antt =====
-- A small status of a contract for `TransactionStatus` of src/BlockInfo.cpp.
use node_infrastructure_torr.Prelude.{
  ◌^◌, ◌<◌, ◌≡◌, refl, arith, true, false, Bytes, codes, length, ok,
}
use node_infrastructure_torr.Serialize.{
  write_loop, to_binary_string_into, serialize_int_into, serialize_string_into,
}
use node_infrastructure_torr.Address.{Address, address_is_empty, get_binary_string}
use node_infrastructure_torr.BlockInfo.Records.{v8_status, TransactionStatus}
use node_infrastructure_torr.BlockInfo.Status.{
  append_address, serialize_v8_status, visit_serialize, serialize_transaction_status,
  deserialize_transaction_status,
}
use node_infrastructure_torr.BlockInfo.Status.RoundTrip.{
  IsStorable, deserialize_transaction_status-serialize_transaction_status,
}

abbrev contract : Address
contract = record { address = codes "addr"; is_initial_w = false; is_set = true }

abbrev failed : TransactionStatus
failed = record {
  is_success = false;
  transaction = codes "tx";
  block_number = 77;
  status = v8_status (record {
    is_server_error = false;
    is_script_error = true;
    compiled_contract_address = contract;
  });
}

failed-IsStorable : IsStorable failed.status
failed-IsStorable = record { given = refl; initial = refl }

abbrev failed_written :
    (raw : Bytes) × (serialize_transaction_status failed (codes "old") ≡ ok raw)
    × (length raw < 2 ^ 64)
unfolding serialize_transaction_status visit_serialize serialize_v8_status append_address
    address_is_empty get_binary_string serialize_string_into serialize_int_into
    to_binary_string_into write_loop
failed_written = (_, refl, omega arith)

deserialize_transaction_status-serialize_transaction_status_example :
    deserialize_transaction_status failed_written.0 ≡ ok failed
deserialize_transaction_status-serialize_transaction_status_example =
    deserialize_transaction_status-serialize_transaction_status failed (codes "old")
      failed_written.0 (omega arith) failed-IsStorable failed_written.1 failed_written.2
