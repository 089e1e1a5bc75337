-- ===== src/NodeTests/Lists/Tests.antt =====
-- Small lists for src/Workers/NodeTestsBlockInfo.cpp.
use node_infrastructure_torr.Prelude.{
  ◌+◌, ◌%◌, ◌^◌, ◌≤◌, ◌≡◌, ◌⊎◌, refl, arith, true, false, ◌||◌, [], ◌∷◌, codes, All,
}
use node_infrastructure_torr.Containers.Sorted.{IsSorted}
use node_infrastructure_torr.Address.{Address, bytes_lt}
use node_infrastructure_torr.NodeTests.Records.{NodeTestCount}
use node_infrastructure_torr.NodeTests.Lists.{tester_lt, count_success, add_test_count}
use node_infrastructure_torr.NodeTests.Lists.Testers.{IsTester}
use node_infrastructure_torr.NodeTests.Lists.Sum.{has_tester, add_test_count_lem}

abbrev first_tester : Address
first_tester = record { address = codes "a"; is_initial_w = false; is_set = true }

abbrev second_tester : Address
second_tester = record { address = codes "b"; is_initial_w = false; is_set = true }

abbrev count : NodeTestCount
count = record {
  count_all = 9;
  count_failure = 2;
  day = 18;
  testers = first_tester ∷ second_tester ∷ [];
}

abbrev other_count : NodeTestCount
other_count = record { count_all = 3; count_failure = 3; day = 19; testers = second_tester ∷ [] }

testers-IsTester : All IsTester count.testers
testers-IsTester = (
  record { given = refl; common = refl; filled = refl },
  (record { given = refl; common = refl; filled = refl }, tt),
)

testers-IsSorted : IsSorted tester_lt count.testers
unfolding bytes_lt
testers-IsSorted = ((refl, tt), (tt, tt))

add_test_count_lem_example :
    IsSorted tester_lt (add_test_count count other_count).testers
    × (has_tester (codes "b") (add_test_count count other_count).testers
        ≡ (has_tester (codes "b") count.testers || has_tester (codes "b") other_count.testers))
    × (18 ≤ (add_test_count count other_count).day)
    × (19 ≤ (add_test_count count other_count).day)
    × (((add_test_count count other_count).day ≡ 18)
        ⊎ ((add_test_count count other_count).day ≡ 19))
    × (count_success (add_test_count count other_count)
        ≡ (count_success count + count_success other_count) % 2 ^ 64)
add_test_count_lem_example =
    add_test_count_lem count other_count (codes "b") testers-IsSorted (omega arith) (omega arith)
