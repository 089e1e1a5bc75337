-- ===== src/Serialize/Truncated.antt =====
-- What the string decoder of src/utils/serialize.h makes of a string that ends inside the field.
use node_infrastructure_torr.Prelude.{
  ℕ, ◌+◌, ◌^◌, ◌<◌, ◌≤◌, ◌≡◌, arith, Bytes, ◌++◌, append_assoc, length, length-append,
  length-append_three, ok, le→leb, lt→==_false, drop-append, take_all,
}
use node_infrastructure_torr.Serialize.{substr, deserialize_string_at, deserialize_string}
use node_infrastructure_torr.Serialize.Encode.{big_endian, length-big_endian}
use node_infrastructure_torr.Serialize.RoundTrip.{from_binary_string-big_endian}

-- `substr` clamps the count to what is left.
substr_clamps :
    (front str : Bytes) (count : ℕ)
    → length str ≤ count
    → substr (front ++ str) (length front) count ≡ ok str
unfolding substr
substr_clamps front str count h = rw (
  drop-append front str,
  take_all count str h,
  le→leb (length front) (length (front ++ str)) (omega (arith, length-append front str)),
)

-- A string field that is cut off behind its length is read as the bytes that are left, without an
-- error, and the position moves behind the end of the whole string, as long as it does not wrap.
pub deserialize_string_truncated :
    (pre str : Bytes) (size : ℕ)
    → length str < size
    → length pre + 8 + size < 2 ^ 64
    → (deserialize_string (pre ++ (big_endian 8 size ++ str)) (length pre)
        ≡ ok (str, length pre + 8 + size))
      × (length (pre ++ (big_endian 8 size ++ str)) < length pre + 8 + size)
unfolding deserialize_string deserialize_string_at
deserialize_string_truncated pre str size h k = (
  rw
      (
        from_binary_string-big_endian 8 size pre str (omega arith) (omega (arith, total)),
        lt→==_false (length pre) (length pre + 8) (omega arith),
        left,
      )
      (ground arith),
  omega (arith, total),
)
  where
    total : length (pre ++ (big_endian 8 size ++ str)) ≡ length pre + 8 + length str
    total = omega (arith, length-append_three pre (big_endian 8 size) str, length-big_endian 8 size)

    left : substr (pre ++ (big_endian 8 size ++ str)) (length pre + 8) size ≡ ok str
    left =
        rw
          (
            length-append pre (big_endian 8 size),
            length-big_endian 8 size,
            append_assoc pre (big_endian 8 size) str,
          )
          at (substr_clamps (pre ++ big_endian 8 size) str size (omega arith))
