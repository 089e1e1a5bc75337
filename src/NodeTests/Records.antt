-- ===== src/NodeTests/Records.antt =====
-- The structures of src/Workers/NodeTestsBlockInfo.h. An `int` is the number with the same 32 bits.
use node_infrastructure_torr.Prelude.{ℕ, Bytes, List, []}
use node_infrastructure_torr.Address.{Address}

-- The structure is its only member.
pub data NodeTestType : Type 0 where
  unknown : NodeTestType
  torrent : NodeTestType
  proxy : NodeTestType

-- The field `type` is `node_type`.
pub record NodeTestResult : Type 0 where
  pub result : Bytes
  pub timestamp : ℕ
  pub node_type : NodeTestType
  pub ip : Bytes
  pub day : ℕ
  pub avg_rps : ℕ

pub record NodeTestTrust : Type 0 where
  pub trust_json : Bytes
  pub timestamp : ℕ
  pub trust : ℕ

-- `testers` is a set, in the order of the addresses.
pub record NodeTestCount : Type 0 where
  pub count_all : ℕ
  pub count_failure : ℕ
  pub day : ℕ
  pub testers : List Address

pub record NodeStatBlockInfo : Type 0 where
  pub block_number : ℕ
  pub block_hash : Bytes
  pub count_val : ℕ

pub record NodeTestExtendedStat : Type 0 where
  pub count : NodeTestCount
  pub node_type : NodeTestType
  pub ip : Bytes

pub record NodeTestDayNumber : Type 0 where
  pub day_number : ℕ

-- `nodes` is a set, in order.
pub record AllTestedNodes : Type 0 where
  pub nodes : List Bytes
  pub day : ℕ

-- `nodes` is a map, in the order of its keys.
pub record AllNodes : Type 0 where
  pub nodes : List (Bytes × Bytes)

pub record NodeRps : Type 0 where
  pub rps : List ℕ

-- The structures as their default members make them.
abbrev pub new_test_result : NodeTestResult
new_test_result = record {
  result = [];
  timestamp = 0;
  node_type = unknown;
  ip = [];
  day = 0;
  avg_rps = 0;
}

abbrev pub new_test_trust : NodeTestTrust
new_test_trust = record { trust_json = []; timestamp = 0; trust = 1 }

abbrev pub new_test_count : NodeTestCount
new_test_count = record { count_all = 0; count_failure = 0; day = 0; testers = [] }
