-- ===== src/Serialize/RoundTrip.antt =====
-- Reading back what src/utils/serialize.h writes, at any place of a string.
use node_infrastructure_torr.Prelude.{
  ℕ, ◌+◌, ◌%◌, ◌^◌, ◌≤◌, ◌<◌, ◌≡◌, ap, ◌∙◌, sym, arith, Bytes, ◌++◌, append_assoc, append-nil,
  length, length-append, length-append_three, ok, ltb, le→leb, lt→==_false, drop-append,
  take-append, false,
}
use node_infrastructure_torr.Serialize.{
  read_loop, from_binary_string, deserialize_int, substr, deserialize_string_at, deserialize_string,
  serialize_int, serialize_int_into, serialize_string_into, serialize_string,
}
use node_infrastructure_torr.Serialize.Encode.{
  big_endian, length-big_endian, serialize_int-big_endian, serialize_string-big_endian,
  serialize_int_into-big_endian, serialize_string_into-big_endian,
}
use node_infrastructure_torr.Serialize.Decode.{digits_value-big_endian, read_loop-digits_value}
use node_infrastructure_torr.Serialize.Cursor.{Decodes}

fits_not_short : (n a b : ℕ) → b < 2 ^ 64 → n + a ≤ b → ltb b ((n + a) % 2 ^ 64) ≡ false
fits_not_short n a b h k = ground arith

module _ (size v : ℕ) (pre post : Bytes) (h : v < 256 ^ size) where
  read_back :
      length (pre ++ (big_endian size v ++ post)) < 2 ^ 64
      → read_loop size size 0 (pre ++ (big_endian size v ++ post)) (length pre) 0 ≡ ok v
  read_back k =
      rw (length-big_endian, digits_value-big_endian size size v h h) at
        (read_loop-digits_value size 0 (length pre) 0 pre (big_endian size v) post (omega arith) k)

  pub from_binary_string-big_endian :
      length (pre ++ (big_endian size v ++ post)) < 2 ^ 64
      → from_binary_string size (pre ++ (big_endian size v ++ post)) (length pre)
        ≡ ok (v, length pre + size)
  unfolding from_binary_string
  from_binary_string-big_endian k =
      rw
        (
          fits_not_short size (length pre) (length (pre ++ (big_endian size v ++ post))) k inside,
          read_back k,
        )
        (ap (λ (n : ℕ). ok (v, n)) (omega (arith, inside)))
    where
      inside : size + length pre ≤ length (pre ++ (big_endian size v ++ post))
      inside =
          omega (arith, length-append_three pre (big_endian size v) post, length-big_endian size v)

  deserialize_int-big_endian :
      0 < size
      → length (pre ++ (big_endian size v ++ post)) < 2 ^ 64
      → deserialize_int size (pre ++ (big_endian size v ++ post)) (length pre)
        ≡ ok (v, length pre + size)
  unfolding deserialize_int
  deserialize_int-big_endian z k = rw (from_binary_string-big_endian k) (ground arith)

-- An unsigned number in the range of its type, of at least one byte, is read back from where it was
-- written, whatever stands before and behind it in a string shorter than 2 ^ 64, and the position
-- moves by the size of its type.
pub deserialize_int-serialize_int :
    (size v : ℕ) (pre post : Bytes)
    → 0 < size
    → v < 256 ^ size
    → length (pre ++ (serialize_int size v ++ post)) < 2 ^ 64
    → deserialize_int size (pre ++ (serialize_int size v ++ post)) (length pre)
      ≡ ok (v, length pre + size)
deserialize_int-serialize_int size v pre post z h =
    rw (serialize_int-big_endian size v) (deserialize_int-big_endian size v pre post h z)

pub Decodes-int :
    (size v : ℕ)
    → 0 < size
    → v < 256 ^ size
    → Decodes (deserialize_int size) (serialize_int size v) v
Decodes-int size v z h = record {
  at = λ pre post k.
      deserialize_int-serialize_int size v pre post z h k
      ∙ ap (λ (n : ℕ). ok (v, length pre + n))
          (sym (length-big_endian size v) ∙ ap length (sym (serialize_int-big_endian size v)));
}

substr-append :
    (front str post : Bytes) → substr (front ++ (str ++ post)) (length front) (length str) ≡ ok str
unfolding substr
substr-append front str post = rw (
  drop-append front (str ++ post),
  take-append str post,
  le→leb (length front) (length (front ++ (str ++ post)))
      (omega (arith, length-append front (str ++ post))),
)

module _ (str pre post : Bytes)
    (k : length (pre ++ (big_endian 8 (length str) ++ (str ++ post))) < 2 ^ 64) where
  substr_behind_length :
      substr (pre ++ (big_endian 8 (length str) ++ (str ++ post))) (length pre + 8) (length str)
      ≡ ok str
  substr_behind_length =
      rw
        (
          length-append pre (big_endian 8 (length str)),
          length-big_endian 8 (length str),
          append_assoc pre (big_endian 8 (length str)) (str ++ post),
        )
        at (substr-append (pre ++ big_endian 8 (length str)) str post)

  parts : length pre + 8 + length str + length post < 2 ^ 64
  parts = omega (
    arith,
    length-append_three pre (big_endian 8 (length str)) (str ++ post),
    length-append str post,
    length-big_endian 8 (length str),
  )

  deserialize_string_at-big_endian :
      deserialize_string_at (pre ++ (big_endian 8 (length str) ++ (str ++ post))) (length pre)
      ≡ ok (str, length pre + (8 + length str))
  unfolding deserialize_string_at
  deserialize_string_at-big_endian =
      rw (from_binary_string-big_endian 8 (length str) pre (str ++ post) (omega (arith, parts)) k) (
        rw (lt→==_false (length pre) (length pre + 8) (omega arith), substr_behind_length)
          (ap (λ (n : ℕ). ok (str, n)) (omega (arith, parts))))

  deserialize_string-big_endian :
      deserialize_string (pre ++ (big_endian 8 (length str) ++ (str ++ post))) (length pre)
      ≡ ok (str, length pre + (8 + length str))
  unfolding deserialize_string
  deserialize_string-big_endian = rw deserialize_string_at-big_endian (ground arith)

-- A string is read back from where it was written, whatever its bytes and whatever stands before
-- and behind it in a string shorter than 2 ^ 64, and the position moves behind it. Both overloads
-- agree on this.
pub deserialize_string-serialize_string :
    (str pre post : Bytes)
    → length (pre ++ (serialize_string str ++ post)) < 2 ^ 64
    → (deserialize_string (pre ++ (serialize_string str ++ post)) (length pre)
        ≡ ok (str, length pre + length (serialize_string str)))
      × (deserialize_string_at (pre ++ (serialize_string str ++ post)) (length pre)
          ≡ ok (str, length pre + length (serialize_string str)))
deserialize_string-serialize_string str pre post =
    rw
      (
        serialize_string-big_endian str,
        append_assoc (big_endian 8 (length str)) str post,
        length-append (big_endian 8 (length str)) str,
        length-big_endian 8 (length str),
      )
      (λ k. (
        deserialize_string-big_endian str pre post k,
        deserialize_string_at-big_endian str pre post k,
      ))

pub Decodes-string : (str : Bytes) → Decodes deserialize_string (serialize_string str) str
Decodes-string str = record {
  at = λ pre post k. (deserialize_string-serialize_string str pre post k).0;
}

pub Decodes-string_at : (str : Bytes) → Decodes deserialize_string_at (serialize_string str) str
Decodes-string_at str = record {
  at = λ pre post k. (deserialize_string-serialize_string str pre post k).1;
}

pub Decodes-from_binary_string :
    (size v : ℕ) → v < 256 ^ size → Decodes (from_binary_string size) (serialize_int size v) v
Decodes-from_binary_string size v h = rw (serialize_int-big_endian size v) (record {
  at = λ pre post k.
      from_binary_string-big_endian size v pre post h k
      ∙ ap (λ (n : ℕ). ok (v, length pre + n)) (sym (length-big_endian size v));
})

pub length-serialize_int : (size v : ℕ) → length (serialize_int size v) ≡ size
length-serialize_int size v = ap length (serialize_int-big_endian size v) ∙ length-big_endian size v

pub length-serialize_string : (str : Bytes) → length (serialize_string str) ≡ 8 + length str
length-serialize_string str = omega (
  arith,
  ap length (serialize_string-big_endian str),
  length-append (big_endian 8 (length str)) str,
  length-big_endian 8 (length str),
)

abbrev pub IsU64 : ℕ → Type 0
IsU64 v = v < 2 ^ 64

pub serialize_int_into-append :
    (size v : ℕ) (buffer : Bytes)
    → serialize_int_into size v buffer ≡ buffer ++ serialize_int size v
serialize_int_into-append size v buffer =
    rw (serialize_int-big_endian size v) (serialize_int_into-big_endian size v buffer)

pub serialize_string_into-append :
    (str buffer : Bytes) → serialize_string_into str buffer ≡ buffer ++ serialize_string str
serialize_string_into-append str buffer =
    rw (serialize_string-big_endian str) (serialize_string_into-big_endian str buffer)

pub ruleset appends =
    (serialize_int_into-append, serialize_string_into-append, append_assoc, append-nil)

pub Decodes-u64 : (v : ℕ) → IsU64 v → Decodes (deserialize_int 8) (serialize_int 8 v) v
Decodes-u64 v h = Decodes-int 8 v (omega arith) (omega arith)
