-- ===== src/Serialize/Tests.antt =====
-- Small strings for src/utils/serialize.h.
use node_infrastructure_torr.Prelude.{
  ◌+◌, ◌^◌, ◌<◌, ◌≡◌, refl, arith, Bytes, [], ◌∷◌, ◌++◌, codes, length, ok,
}
use node_infrastructure_torr.Serialize.{
  write_loop, to_binary_string, serialize_int, read_loop, char_at, from_binary_string,
  deserialize_int, deserialize_string,
}
use node_infrastructure_torr.Serialize.Encode.{big_endian}
use node_infrastructure_torr.Serialize.RoundTrip.{deserialize_int-serialize_int}
use node_infrastructure_torr.Serialize.Truncated.{deserialize_string_truncated}

two_bytes : to_binary_string 4 258 ≡ 0 ∷ 0 ∷ 1 ∷ 2 ∷ []
unfolding to_binary_string write_loop
two_bytes = refl

reads_two_bytes : deserialize_int 2 (9 ∷ 1 ∷ 2 ∷ []) 1 ≡ ok (258, 3)
unfolding deserialize_int from_binary_string read_loop char_at
reads_two_bytes = refl

abbrev number_field : Bytes
number_field = codes "ab" ++ (serialize_int 8 1027 ++ codes "c")

number_field_short : length number_field < 2 ^ 64
unfolding serialize_int to_binary_string write_loop
number_field_short = omega arith

deserialize_int-serialize_int_example :
    deserialize_int 8 (codes "ab" ++ (serialize_int 8 1027 ++ codes "c")) 2 ≡ ok (1027, 2 + 8)
deserialize_int-serialize_int_example =
    deserialize_int-serialize_int 8 1027 (codes "ab") (codes "c") (omega arith) (omega arith)
      number_field_short

deserialize_string_truncated_example :
    (deserialize_string (codes "ab" ++ (big_endian 8 9 ++ codes "hello")) 2
      ≡ ok (codes "hello", 2 + 8 + 9))
    × (length (codes "ab" ++ (big_endian 8 9 ++ codes "hello")) < 2 + 8 + 9)
deserialize_string_truncated_example =
    deserialize_string_truncated (codes "ab") (codes "hello") 9 (omega arith) (omega arith)
