-- ===== src/NodeTests/Lists/Testers.antt =====
-- `NodeTestCount` of src/Workers/NodeTestsBlockInfo.cpp with its set of testers.
use node_infrastructure_torr.Prelude.{
  ◌^◌, ◌<◌, ◌≡◌, ◌∙◌, sym, ap, Bytes, List, [], ◌∷◌, ◌++◌, append-nil, append_assoc, length, All,
  All-map, concat_map, ok, is_empty, true, false,
}
use node_infrastructure_torr.Serialize.{serialize_int, serialize_string}
use node_infrastructure_torr.Serialize.Cursor.{
  Decodes, Decodes-pure, Decodes-pure_eq, Decodes-bind, Decodes-eq, Decodes-repeat, repeat,
}
use node_infrastructure_torr.Serialize.RoundTrip.{IsU64, Decodes-u64, Decodes-string}
use node_infrastructure_torr.Containers.{insert}
use node_infrastructure_torr.Containers.Sorted.{StrictOrder, IsSorted, foldl-insert}
use node_infrastructure_torr.Address.{Address, address_of_range, get_binary_string, to_bd_string}
use node_infrastructure_torr.Address.Order.{bytes_lt-StrictOrder}
use node_infrastructure_torr.NodeTests.Records.{NodeTestCount}
use node_infrastructure_torr.NodeTests.Codec.RoundTrip.{not_empty-int, whole-Decodes}
use node_infrastructure_torr.NodeTests.Lists.{
  tester_lt, append_testers, serialize_test_count, read_tester, deserialize_test_count_at,
  deserialize_test_count,
}

pub tester_lt-StrictOrder : StrictOrder tester_lt
tester_lt-StrictOrder = record {
  asym = λ a b h. bytes_lt-StrictOrder.asym a.address b.address h;
  trans = λ a b c h k. bytes_lt-StrictOrder.trans a.address b.address c.address h k;
}

-- The address of a tester: it is set, has bytes, and is not marked as the initial wallet's.
pub record IsTester (a : Address) : Type 0 where
  pub given : a.is_set ≡ true
  pub common : a.is_initial_w ≡ false
  pub filled : is_empty a.address ≡ false

address_of_range_lem : (a : Address) → IsTester a → address_of_range a.address ≡ a
unfolding address_of_range
address_of_range_lem a t = cc (t.given, t.common)

to_bd_string_lem : (a : Address) → IsTester a → to_bd_string a ≡ ok a.address
unfolding to_bd_string get_binary_string
to_bd_string_lem a t = rw (t.given, t.filled)

abbrev tester_field : Address → Bytes
tester_field a = serialize_string a.address

append_testers-append :
    (res : Bytes) (testers : List Address)
    → All IsTester testers
    → append_testers res testers ≡ ok (res ++ concat_map tester_field testers)
unfolding append_testers
append_testers-append res [] a = ap ok (sym (append-nil res))
append_testers-append res (x ∷ xs) (t, a) = rw (to_bd_string_lem x t) (
    append_testers-append (res ++ tester_field x) xs a
    ∙ ap ok (append_assoc res (tester_field x) _))

Decodes-read_tester :
    (a : Address) (testers : List Address)
    → IsTester a
    → Decodes (read_tester testers) (tester_field a) (insert tester_lt a testers)
unfolding read_tester
Decodes-read_tester a testers t = Decodes-eq (append-nil _) (
    Decodes-bind _ _ (Decodes-string a.address) (
      Decodes-pure_eq
        (ap (λ (b : Address). insert tester_lt b testers) (address_of_range_lem a t))))

-- What `NodeTestCount::serialize` returns is read back, if its numbers are in range, the string is
-- not too long, and its testers are in order and have addresses that are set, have bytes and are
-- not marked as the initial wallet's.
pub deserialize_test_count-serialize_test_count :
    (c : NodeTestCount) (raw : Bytes)
    → serialize_test_count c ≡ ok raw
    → All IsTester c.testers
    → IsSorted tester_lt c.testers
    → IsU64 c.count_all
    → IsU64 c.count_failure
    → IsU64 c.day
    → IsU64 (length c.testers)
    → length raw < 2 ^ 64
    → deserialize_test_count raw ≡ ok c
unfolding deserialize_test_count deserialize_test_count_at
deserialize_test_count-serialize_test_count c raw e t s h k d n l =
    rw (← written, not_empty-int c.count_all _)
      (whole-Decodes
        (Decodes-eq (simp append-nil) (
          Decodes-bind _ _ (Decodes-u64 c.count_all h) (
            Decodes-bind _ _ (Decodes-u64 c.count_failure k) (
              Decodes-bind _ _ (Decodes-u64 c.day d) (
                Decodes-bind _ _ (Decodes-u64 (length c.testers) n)
                  (Decodes-bind _ _ testers (Decodes-pure _)))))))
        (rw (← written) at l))
  where
    written :
        serialize_int 8 c.count_all
          ++ (serialize_int 8 c.count_failure
              ++ (serialize_int 8 c.day
                  ++ (serialize_int 8 (length c.testers) ++ concat_map tester_field c.testers)))
        ≡ raw
    written =
        unfold serialize_test_count in
        simp (← append_assoc) (cc (e, append_testers-append _ c.testers t))

    testers :
        Decodes
          (repeat (length c.testers) read_tester [])
          (concat_map tester_field c.testers)
          c.testers
    testers = rw (foldl-insert tester_lt-StrictOrder c.testers s) at (
        Decodes-repeat read_tester tester_field (λ s x. insert tester_lt x s) c.testers []
          (All-map c.testers (λ x w u. Decodes-read_tester x u w) t))
