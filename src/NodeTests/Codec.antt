-- ===== src/NodeTests/Codec.antt =====
-- The codecs of src/Workers/NodeTestsBlockInfo.cpp that read a fixed number of members.
pub mod RoundTrip
use node_infrastructure_torr.Prelude.{
  ℕ, ◌+◌, ◌-◌, ◌%◌, ◌^◌, Bool, not, Bytes, [], ◌++◌, is_empty, ltb, ◌==◌, if◌then◌else◌, Result, ok,
  err, ◌>>=◌ as ◌>>=R◌, check, incorrect_type, empty_hash,
}
use node_infrastructure_torr.Serialize.{
  serialize_int, serialize_string, deserialize_int, deserialize_string,
}
use node_infrastructure_torr.Serialize.Cursor.{Cursor, ◌>>=◌, pure, has_more, throw, whole}
use node_infrastructure_torr.NodeTests.Records.{
  NodeTestType, unknown, torrent, proxy, NodeTestResult, new_test_result, NodeTestTrust,
  new_test_trust, NodeStatBlockInfo, NodeTestDayNumber,
}

-- NodeTestType::serialize()
pub serialize_test_type : NodeTestType → Result Bytes
serialize_test_type unknown = err incorrect_type
serialize_test_type torrent = ok (serialize_int 1 1)
serialize_test_type proxy = ok (serialize_int 1 2)

abbrev test_type_of : ℕ → Cursor NodeTestType
test_type_of n =
    if n == 1 then pure torrent else if n == 2 then pure proxy else throw incorrect_type

abbrev read_test_type : Bool → Cursor NodeTestType
read_test_type more = if more then (deserialize_int 1 >>= test_type_of) else pure unknown

-- NodeTestType::deserialize(raw, from)
pub deserialize_test_type : Cursor NodeTestType
deserialize_test_type = has_more >>= read_test_type

-- NodeTestResult::serialize(), which does not write `avgRps`
pub serialize_test_result : NodeTestResult → Result Bytes
serialize_test_result r = serialize_test_type r.node_type >>=R λ type_string. ok (
    serialize_string r.result
    ++ serialize_int 8 r.timestamp
    ++ type_string
    ++ serialize_string r.ip
    ++ serialize_int 8 r.day)

deserialize_test_result_at : Cursor NodeTestResult
deserialize_test_result_at = do
  result ← deserialize_string
  timestamp ← deserialize_int 8
  node_type ← deserialize_test_type
  ip ← deserialize_string
  day ← deserialize_int 8
  pure (record {
    result = result;
    timestamp = timestamp;
    node_type = node_type;
    ip = ip;
    day = day;
    avg_rps = 0;
  })

-- NodeTestResult::deserialize(raw)
pub deserialize_test_result : Bytes → Result NodeTestResult
deserialize_test_result raw =
    if is_empty raw then ok new_test_result else whole deserialize_test_result_at raw

-- An `int` as a `size_t`, with its sign, and a `size_t` as an `int`.
abbrev pub size_of_int : ℕ → ℕ
size_of_int n = if ltb n (2 ^ 31) then n else n + (2 ^ 64 - 2 ^ 32)

abbrev pub int_of_size : ℕ → ℕ
int_of_size n = n % 2 ^ 32

-- NodeTestTrust::serialize()
pub serialize_test_trust : NodeTestTrust → Bytes
serialize_test_trust t =
    serialize_string t.trust_json
    ++ serialize_int 8 t.timestamp
    ++ serialize_int 8 (size_of_int t.trust)

deserialize_test_trust_at : Cursor NodeTestTrust
deserialize_test_trust_at = do
  trust_json ← deserialize_string
  timestamp ← deserialize_int 8
  trust ← deserialize_int 8
  pure (record { trust_json = trust_json; timestamp = timestamp; trust = int_of_size trust })

-- NodeTestTrust::deserialize(raw)
pub deserialize_test_trust : Bytes → Result NodeTestTrust
deserialize_test_trust raw =
    if is_empty raw then ok new_test_trust else whole deserialize_test_trust_at raw

-- NodeStatBlockInfo::serialize()
pub serialize_stat_block : NodeStatBlockInfo → Result Bytes
serialize_stat_block s = check (not (is_empty s.block_hash)) empty_hash >>=R λ _.
    ok (
      serialize_string s.block_hash
      ++ serialize_int 8 s.block_number
      ++ serialize_int 8 s.count_val)

deserialize_stat_block_at : Cursor NodeStatBlockInfo
deserialize_stat_block_at = do
  block_hash ← deserialize_string
  block_number ← deserialize_int 8
  count_val ← deserialize_int 8
  pure (record { block_number = block_number; block_hash = block_hash; count_val = count_val })

-- NodeStatBlockInfo::deserialize(raw)
pub deserialize_stat_block : Bytes → Result NodeStatBlockInfo
deserialize_stat_block raw =
    if is_empty raw
    then ok (record { block_number = 0; block_hash = []; count_val = 0 })
    else whole deserialize_stat_block_at raw

-- NodeTestDayNumber::serialize()
pub serialize_day_number : NodeTestDayNumber → Bytes
serialize_day_number d = serialize_int 8 d.day_number

deserialize_day_number_at : Cursor NodeTestDayNumber
deserialize_day_number_at = do n ← deserialize_int 8; pure (record { day_number = n })

-- NodeTestDayNumber::deserialize(raw)
pub deserialize_day_number : Bytes → Result NodeTestDayNumber
deserialize_day_number raw =
    if is_empty raw then ok (record { day_number = 0 }) else whole deserialize_day_number_at raw
