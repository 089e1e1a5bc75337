-- ===== src/NodeTests/Lists.antt =====
-- The codecs of src/Workers/NodeTestsBlockInfo.cpp that read a list behind its length.
pub mod RoundTrip
pub mod Testers
pub mod Sum
mod Tests
use node_infrastructure_torr.Prelude.{
  ℕ, ◌+◌, ◌-◌, ◌%◌, ◌^◌, max, Bool, false, Bytes, List, [], ◌∷◌, ◌++◌, length, foldl, append_each,
  is_empty, if◌then◌else◌, Result, ok, ◌>>=◌ as ◌>>=R◌,
}
use node_infrastructure_torr.Serialize.{
  serialize_int, serialize_string, deserialize_int, deserialize_string,
}
use node_infrastructure_torr.Serialize.Cursor.{Cursor, ◌>>=◌, pure, repeat, whole}
use node_infrastructure_torr.Containers.{insert, assign_key}
use node_infrastructure_torr.Address.{Address, bytes_lt, address_of_range, to_bd_string}
use node_infrastructure_torr.NodeTests.Records.{
  NodeTestCount, new_test_count, AllTestedNodes, AllNodes, NodeRps,
}

-- The comparison of `std::set<Address>`. It throws on an address that is not set, and every
-- constructor but the default one sets the address.
abbrev pub tester_lt : Address → Address → Bool
tester_lt a b = bytes_lt a.address b.address

-- for (const Address &tester: testers) { res += serializeString(tester.toBdString()); }
pub append_testers : Bytes → List Address → Result Bytes
append_testers res [] = ok res
append_testers res (a ∷ rest) =
    to_bd_string a >>=R λ bytes. append_testers (res ++ serialize_string bytes) rest

-- NodeTestCount::serialize()
pub serialize_test_count : NodeTestCount → Result Bytes
unfolding append_testers
serialize_test_count c =
    append_testers
      (serialize_int 8 c.count_all
        ++ serialize_int 8 c.count_failure
        ++ serialize_int 8 c.day
        ++ serialize_int 8 (length c.testers))
      c.testers

-- `Address(address)` on a vector of bytes is `address_of_range`, as no address is blocked.
read_tester : List Address → Cursor (List Address)
read_tester testers = do
  addr ← deserialize_string
  pure (insert tester_lt (address_of_range addr) testers)

deserialize_test_count_at : Cursor NodeTestCount
deserialize_test_count_at = do
  count_all ← deserialize_int 8
  count_failure ← deserialize_int 8
  day ← deserialize_int 8
  count_testers ← deserialize_int 8
  testers ← repeat count_testers read_tester []
  pure (record {
    count_all = count_all;
    count_failure = count_failure;
    day = day;
    testers = testers;
  })

-- NodeTestCount::deserialize(raw)
pub deserialize_test_count : Bytes → Result NodeTestCount
deserialize_test_count raw =
    if is_empty raw then ok new_test_count else whole deserialize_test_count_at raw

-- countSuccess()
pub count_success : NodeTestCount → ℕ
count_success c = (c.count_all + 2 ^ 64 - c.count_failure) % 2 ^ 64

-- operator+= and operator+
pub add_test_count : NodeTestCount → NodeTestCount → NodeTestCount
add_test_count a b = record {
  count_all = (a.count_all + b.count_all) % 2 ^ 64;
  count_failure = (a.count_failure + b.count_failure) % 2 ^ 64;
  day = max a.day b.day;
  testers = foldl (λ s t. insert tester_lt t s) a.testers b.testers;
}

-- AllTestedNodes::serialize()
pub serialize_tested_nodes : AllTestedNodes → Bytes
serialize_tested_nodes n =
    append_each serialize_string (serialize_int 8 n.day ++ serialize_int 8 (length n.nodes)) n.nodes

read_node : List Bytes → Cursor (List Bytes)
read_node nodes = do node ← deserialize_string; pure (insert bytes_lt node nodes)

deserialize_tested_nodes_at : Cursor AllTestedNodes
deserialize_tested_nodes_at = do
  day ← deserialize_int 8
  count ← deserialize_int 8
  nodes ← repeat count read_node []
  pure (record { nodes = nodes; day = day })

-- AllTestedNodes::deserialize(raw)
pub deserialize_tested_nodes : Bytes → Result AllTestedNodes
deserialize_tested_nodes raw =
    if is_empty raw
    then ok (record { nodes = []; day = 0 })
    else whole deserialize_tested_nodes_at raw

abbrev pub serialize_name : Bytes × Bytes → Bytes
serialize_name p = serialize_string p.0 ++ serialize_string p.1

-- AllNodes::serialize()
pub serialize_all_nodes : AllNodes → Bytes
serialize_all_nodes n = append_each serialize_name (serialize_int 8 (length n.nodes)) n.nodes

read_name : List (Bytes × Bytes) → Cursor (List (Bytes × Bytes))
read_name nodes = do
  node ← deserialize_string
  name ← deserialize_string
  pure (assign_key bytes_lt (node, name) nodes)

deserialize_all_nodes_at : Cursor AllNodes
deserialize_all_nodes_at = do
  count ← deserialize_int 8
  nodes ← repeat count read_name []
  pure (record { nodes = nodes })

-- AllNodes::deserialize(raw)
pub deserialize_all_nodes : Bytes → Result AllNodes
deserialize_all_nodes raw =
    if is_empty raw then ok (record { nodes = [] }) else whole deserialize_all_nodes_at raw

-- NodeRps::serialize()
pub serialize_node_rps : NodeRps → Bytes
serialize_node_rps n = append_each (serialize_int 8) (serialize_int 8 (length n.rps)) n.rps

read_rp : List ℕ → Cursor (List ℕ)
read_rp rps = do rp ← deserialize_int 8; pure (rps ++ (rp ∷ []))

deserialize_node_rps_at : Cursor NodeRps
deserialize_node_rps_at = do
  count ← deserialize_int 8
  rps ← repeat count read_rp []
  pure (record { rps = rps })

-- NodeRps::deserialize(raw)
pub deserialize_node_rps : Bytes → Result NodeRps
deserialize_node_rps raw =
    if is_empty raw then ok (record { rps = [] }) else whole deserialize_node_rps_at raw
