-- ===== src/NodeTests/Lists/Sum.antt =====
-- The sum of two `NodeTestCount` in src/Workers/NodeTestsBlockInfo.cpp.
use node_infrastructure_torr.Prelude.{
  ◌+◌, ◌%◌, ◌^◌, ◌≤◌, ◌≡◌, ◌⊎◌, refl, arith, Bool, false, ◌||◌, Bytes, List, [], ◌∷◌, foldl, leb,
  Bool-cases, bytes_eq, bytes_eq_iff, inl, inr,
}
use node_infrastructure_torr.Serialize.RoundTrip.{IsU64}
use node_infrastructure_torr.Containers.{insert, place}
use node_infrastructure_torr.Containers.Sorted.{IsSorted, insert-IsSorted}
use node_infrastructure_torr.Address.{Address}
use node_infrastructure_torr.Address.Order.{bytes_lt_cases}
use node_infrastructure_torr.NodeTests.Records.{NodeTestCount}
use node_infrastructure_torr.NodeTests.Lists.{tester_lt, count_success, add_test_count}
use node_infrastructure_torr.NodeTests.Lists.Testers.{tester_lt-StrictOrder}

-- The bytes of an address are those of one in the set.
pub has_tester : Bytes → List Address → Bool
has_tester k [] = false
has_tester k (a ∷ rest) = bytes_eq a.address k || has_tester k rest

has_tester-insert :
    (k : Bytes) (x : Address) (xs : List Address)
    → has_tester k (insert tester_lt x xs) ≡ (bytes_eq x.address k || has_tester k xs)
unfolding has_tester insert place
has_tester-insert k x [] = refl
has_tester-insert k x (y ∷ ys) = elim (bytes_lt_cases x.address y.address) [
  | inl (p, q, r) ↦ rw p
  | inr (inl (p, q, r)) ↦ rw (p, r, (bytes_eq_iff x.address y.address).0 q) (ground arith)
  | inr (inr (p, q, r)) ↦ rw (p, r) (ground (arith, has_tester-insert k x ys))
]

has_tester-foldl :
    (k : Bytes) (xs ys : List Address)
    → has_tester k (foldl (λ s t. insert tester_lt t s) xs ys)
      ≡ (has_tester k xs || has_tester k ys)
unfolding has_tester
has_tester-foldl k xs [] = ground arith
has_tester-foldl k xs (y ∷ ys) =
    ground (arith, has_tester-foldl k (insert tester_lt y xs) ys, has_tester-insert k y xs)

foldl-IsSorted :
    (xs ys : List Address)
    → IsSorted tester_lt xs
    → IsSorted tester_lt (foldl (λ s t. insert tester_lt t s) xs ys)
foldl-IsSorted xs [] s = s
foldl-IsSorted xs (y ∷ ys) s =
    foldl-IsSorted (insert tester_lt y xs) ys (insert-IsSorted tester_lt-StrictOrder y xs s)

-- The sum of two counts has the union of their testers, in order and each once if those of the
-- first are so, the later of their two days, and, for failures in range, as many successes as both
-- have together, modulo 2 ^ 64.
pub add_test_count_lem :
    (a b : NodeTestCount) (k : Bytes)
    → IsSorted tester_lt a.testers
    → IsU64 a.count_failure
    → IsU64 b.count_failure
    → IsSorted tester_lt (add_test_count a b).testers
      × (has_tester k (add_test_count a b).testers
          ≡ (has_tester k a.testers || has_tester k b.testers))
      × (a.day ≤ (add_test_count a b).day)
      × (b.day ≤ (add_test_count a b).day)
      × (((add_test_count a b).day ≡ a.day) ⊎ ((add_test_count a b).day ≡ b.day))
      × (count_success (add_test_count a b) ≡ (count_success a + count_success b) % 2 ^ 64)
unfolding add_test_count count_success
add_test_count_lem a b k s f g = (
  foldl-IsSorted a.testers b.testers s,
  has_tester-foldl k a.testers b.testers,
  omega arith,
  omega arith,
  elim (Bool-cases (leb a.day b.day)) [ inl h ↦ inr (ground arith) | inr h ↦ inl (ground arith) ],
  omega arith,
)
