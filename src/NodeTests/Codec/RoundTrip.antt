-- ===== src/NodeTests/Codec/RoundTrip.antt =====
-- The codecs of src/Workers/NodeTestsBlockInfo.cpp read back the fixed members that they write.
use node_infrastructure_torr.Prelude.{
  ℕ, ◌^◌, ◌<◌, ◌≡◌, ap, refl, arith, Bytes, ◌++◌, append-nil, append_assoc, length, length-append,
  ok, is_empty, false, is_empty_of_pos,
}
use node_infrastructure_torr.Serialize.{serialize_int, serialize_string}
use node_infrastructure_torr.Serialize.Cursor.{
  Cursor, Decodes, Decodes-pure, Decodes-pure_eq, Decodes-bind, Decodes-eq, Decodes-has_more,
  DecodesEnd-of_Decodes, DecodesEnd-whole, whole,
}
use node_infrastructure_torr.Serialize.RoundTrip.{
  IsU64, Decodes-int, Decodes-u64, Decodes-string, length-serialize_int, length-serialize_string,
}
use node_infrastructure_torr.NodeTests.Records.{
  NodeTestType, unknown, torrent, proxy, NodeTestResult, NodeTestTrust, NodeStatBlockInfo,
}
use node_infrastructure_torr.NodeTests.Codec.{
  read_test_type, serialize_test_type, deserialize_test_type, serialize_test_result,
  deserialize_test_result_at, deserialize_test_result, size_of_int, int_of_size,
  serialize_test_trust, deserialize_test_trust_at, deserialize_test_trust, serialize_stat_block,
  deserialize_stat_block_at, deserialize_stat_block,
}

-- A read of a string that begins with a string field or a number.
pub not_empty-string : (str rest : Bytes) → is_empty (serialize_string str ++ rest) ≡ false
not_empty-string str rest =
    is_empty_of_pos (serialize_string str ++ rest)
      (omega (arith, length-append (serialize_string str) rest, length-serialize_string str))

pub not_empty-int : (v : ℕ) (rest : Bytes) → is_empty (serialize_int 8 v ++ rest) ≡ false
not_empty-int v rest =
    is_empty_of_pos (serialize_int 8 v ++ rest)
      (omega (arith, length-append (serialize_int 8 v) rest, length-serialize_int 8 v))

pub whole-Decodes {ℓ} :
    {A : Type ℓ} {m : Cursor A} {enc : Bytes} {a : A}
    → Decodes m enc a
    → length enc < 2 ^ 64
    → whole m enc ≡ ok a
whole-Decodes d h = DecodesEnd-whole (DecodesEnd-of_Decodes d) h

Decodes-test_type :
    (t : NodeTestType) (raw : Bytes)
    → serialize_test_type t ≡ ok raw
    → Decodes deserialize_test_type raw t
unfolding deserialize_test_type serialize_test_type
Decodes-test_type unknown raw h = absurd (cc h)
Decodes-test_type torrent raw h = rw (← written) (
    Decodes-has_more read_test_type (serialize_int 1 1)
      (Decodes-eq (append-nil _)
        (Decodes-bind _ _ (Decodes-int 1 1 (omega arith) (omega arith)) (Decodes-pure torrent)))
      (omega (arith, length-serialize_int 1 1)))
  where
    written : serialize_int 1 1 ≡ raw
    written = cc h
Decodes-test_type proxy raw h = rw (← written) (
    Decodes-has_more read_test_type (serialize_int 1 2)
      (Decodes-eq (append-nil _)
        (Decodes-bind _ _ (Decodes-int 1 2 (omega arith) (omega arith)) (Decodes-pure proxy)))
      (omega (arith, length-serialize_int 1 2)))
  where
    written : serialize_int 1 2 ≡ raw
    written = cc h

abbrev test_result_fields : NodeTestResult → Bytes → Bytes
test_result_fields r type_string =
    serialize_string r.result
    ++ (serialize_int 8 r.timestamp
        ++ (type_string ++ (serialize_string r.ip ++ serialize_int 8 r.day)))

test_result_fields_grouped :
    (r : NodeTestResult) (type_string : Bytes)
    → serialize_string r.result
        ++ serialize_int 8 r.timestamp
        ++ type_string
        ++ serialize_string r.ip
        ++ serialize_int 8 r.day
      ≡ test_result_fields r type_string
test_result_fields_grouped r type_string = simp append_assoc

serialize_test_result_ok :
    (r : NodeTestResult) (raw : Bytes)
    → serialize_test_result r ≡ ok raw
    → (type_string : Bytes) × (serialize_test_type r.node_type ≡ ok type_string)
      × (raw ≡ test_result_fields r type_string)
unfolding serialize_test_result serialize_test_type
serialize_test_result_ok r raw h = by_type r.node_type refl
  where
    by_type :
        (t : NodeTestType)
        → r.node_type ≡ t
        → (type_string : Bytes) × (serialize_test_type r.node_type ≡ ok type_string)
          × (raw ≡ test_result_fields r type_string)
    by_type unknown e = absurd (cc (rw e at h))
    by_type torrent e =
        (serialize_int 1 1, rw e, cc (rw e at h, test_result_fields_grouped r (serialize_int 1 1)))
    by_type proxy e =
        (serialize_int 1 2, rw e, cc (rw e at h, test_result_fields_grouped r (serialize_int 1 2)))

-- What `NodeTestResult::serialize` returns is read back but for the average of the requests, which
-- is not written, if the numbers are in range and the string is not too long.
pub deserialize_test_result-serialize_test_result :
    (r : NodeTestResult) (raw : Bytes)
    → serialize_test_result r ≡ ok raw
    → IsU64 r.timestamp
    → IsU64 r.day
    → length raw < 2 ^ 64
    → deserialize_test_result raw ≡ ok (record r { avg_rps = 0 })
unfolding deserialize_test_result deserialize_test_result_at
deserialize_test_result-serialize_test_result r raw h t d l =
    let (type_string, e, w) = serialize_test_result_ok r raw h in
    rw (w, not_empty-string r.result _)
      (whole-Decodes
        (Decodes-eq (simp append-nil) (
          Decodes-bind _ _ (Decodes-string r.result) (
            Decodes-bind _ _ (Decodes-u64 r.timestamp t) (
              Decodes-bind _ _ (Decodes-test_type r.node_type type_string e) (
                Decodes-bind _ _ (Decodes-string r.ip)
                  (Decodes-bind _ _ (Decodes-u64 r.day d) (Decodes-pure _)))))))
        (rw w at l))

int_of_size-size_of_int : (n : ℕ) → n < 2 ^ 32 → int_of_size (size_of_int n) ≡ n
int_of_size-size_of_int n h = ground arith

size_of_int-IsU64 : (n : ℕ) → n < 2 ^ 32 → IsU64 (size_of_int n)
size_of_int-IsU64 n h = ground arith

-- `NodeTestTrust::deserialize` reads back what `NodeTestTrust::serialize` writes, a negative trust
-- included, though it is written as a `size_t`, if the numbers are in range and the string is not
-- too long.
pub deserialize_test_trust-serialize_test_trust :
    (t : NodeTestTrust)
    → IsU64 t.timestamp
    → t.trust < 2 ^ 32
    → length (serialize_test_trust t) < 2 ^ 64
    → deserialize_test_trust (serialize_test_trust t) ≡ ok t
unfolding serialize_test_trust deserialize_test_trust deserialize_test_trust_at
deserialize_test_trust-serialize_test_trust t h k l =
    rw
      (
        append_assoc (serialize_string t.trust_json) (serialize_int 8 t.timestamp)
            (serialize_int 8 (size_of_int t.trust)),
        not_empty-string t.trust_json _,
      )
      (whole-Decodes
        (Decodes-eq (simp append-nil) (
          Decodes-bind _ _ (Decodes-string t.trust_json) (
            Decodes-bind _ _ (Decodes-u64 t.timestamp h) (
              Decodes-bind _ _ (Decodes-u64 (size_of_int t.trust) (size_of_int-IsU64 t.trust k)) (
                Decodes-pure_eq
                  (ap (λ (n : ℕ). record t { trust = n }) (int_of_size-size_of_int t.trust k)))))))
        (rw
          (append_assoc (serialize_string t.trust_json) (serialize_int 8 t.timestamp)
            (serialize_int 8 (size_of_int t.trust)))
          at l))

abbrev stat_block_fields : NodeStatBlockInfo → Bytes
stat_block_fields s =
    serialize_string s.block_hash ++ (serialize_int 8 s.block_number ++ serialize_int 8 s.count_val)

serialize_stat_block_ok :
    (s : NodeStatBlockInfo) (raw : Bytes)
    → serialize_stat_block s ≡ ok raw
    → (is_empty s.block_hash ≡ false) × (raw ≡ stat_block_fields s)
unfolding serialize_stat_block
serialize_stat_block_ok s raw h = ground (
  arith,
  append_assoc (serialize_string s.block_hash) (serialize_int 8 s.block_number)
      (serialize_int 8 s.count_val),
)

-- What `NodeStatBlockInfo::serialize` returns is read back, if the numbers are in range and the
-- string is not too long; it returns something only if the hash is there.
pub deserialize_stat_block-serialize_stat_block :
    (s : NodeStatBlockInfo) (raw : Bytes)
    → serialize_stat_block s ≡ ok raw
    → IsU64 s.block_number
    → IsU64 s.count_val
    → length raw < 2 ^ 64
    → (is_empty s.block_hash ≡ false) × (deserialize_stat_block raw ≡ ok s)
unfolding deserialize_stat_block deserialize_stat_block_at
deserialize_stat_block-serialize_stat_block s raw h j k l =
    let (named, w) = serialize_stat_block_ok s raw h in
    (
      named,
      rw (w, not_empty-string s.block_hash _)
          (whole-Decodes
            (Decodes-eq (simp append-nil) (
              Decodes-bind _ _ (Decodes-string s.block_hash) (
                Decodes-bind _ _ (Decodes-u64 s.block_number j)
                  (Decodes-bind _ _ (Decodes-u64 s.count_val k) (Decodes-pure _)))))
            (rw w at l)),
    )
