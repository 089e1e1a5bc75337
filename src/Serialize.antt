-- ===== src/Serialize.antt =====
-- src/utils/serialize.h: integers of a fixed number of bytes, most significant byte first, and
-- strings behind their length. A type `T` is given by the number of its bytes, `sizeof(T)`; its
-- values wrap at 256 ^ sizeof(T). `size_t` has 8 bytes, and positions wrap at 2 ^ 64.
pub mod Encode
pub mod Cursor
pub mod Decode
pub mod RoundTrip
pub mod Truncated
mod Tests
use node_infrastructure_torr.Prelude.{
  ℕ, zero, suc, ◌+◌, ◌*◌, ◌/◌, ◌%◌, ◌^◌, Bool, not, Bytes, [], ◌++◌, length, set, get_elem?, take,
  drop, replicate, ltb, leb, ◌==◌, if◌then◌else◌, Result, ok, err, fault, ◌>>=◌, ◌>>◌, check,
  incorrect_raw, out_of_range, some, none,
}

-- while (val != 0 && i >= 0) { buffer[offset + i] = val % 256; val /= 256; i--; }
-- The first argument is i + 1.
unfoldable pub write_loop : ℕ → ℕ → ℕ → Bytes → Bytes
write_loop zero val offset buffer = buffer
write_loop (suc i) val offset buffer =
    let rest = write_loop i (val / 256) offset (set buffer (offset + i) (val % 256)) in
    if val == 0 then buffer else rest

-- The overload that returns a new string.
unfoldable pub to_binary_string : ℕ → ℕ → Bytes
unfolding write_loop
to_binary_string size val = write_loop size val 0 (replicate size 0)

-- The overload that appends to a buffer.
unfoldable pub to_binary_string_into : ℕ → ℕ → Bytes → Bytes
unfolding write_loop
to_binary_string_into size val buffer =
    write_loop size val (length buffer) (buffer ++ replicate size 0)

unfoldable pub serialize_int : ℕ → ℕ → Bytes
unfolding to_binary_string
serialize_int size val = to_binary_string size val

unfoldable pub serialize_int_into : ℕ → ℕ → Bytes → Bytes
unfolding to_binary_string_into
serialize_int_into size val buffer = to_binary_string_into size val buffer

unfoldable pub serialize_string : Bytes → Bytes
unfolding serialize_int
serialize_string str = serialize_int 8 (length str) ++ str

unfoldable pub serialize_string_into : Bytes → Bytes → Bytes
unfolding serialize_int_into
serialize_string_into str buffer = serialize_int_into 8 (length str) buffer ++ str

-- raw[pos] of a constant `std::string`: the terminator at pos == size(), undefined beyond it.
pub char_at : Bytes → ℕ → Result ℕ
char_at raw pos = elim (get_elem? raw pos) [
  | some b ↦ ok b
  | none ↦ if pos == length raw then ok 0 else fault
]

-- for (i = 0; i < sizeField; i++) { val *= 256; val += raw[i + fromPos]; }
-- The second argument is the number of rounds left.
pub read_loop : ℕ → ℕ → ℕ → Bytes → ℕ → ℕ → Result ℕ
unfolding char_at
read_loop size zero i raw from val = ok val
read_loop size (suc n) i raw from val = do
  b ← char_at raw ((i + from) % 2 ^ 64)
  read_loop size n (i + 1) raw from ((val * 256 % 256 ^ size + b) % 256 ^ size)

-- The value and `endPos`; `endPos` is `fromPos` if the field does not fit.
pub from_binary_string : ℕ → Bytes → ℕ → Result (ℕ × ℕ)
unfolding read_loop
from_binary_string size raw from =
    if ltb (length raw) ((size + from) % 2 ^ 64)
    then ok (0, from)
    else (do val ← read_loop size size 0 raw from 0; ok (val, (from + size) % 2 ^ 64))

-- The overload that moves `fromPos`, and throws if nothing was read.
pub deserialize_int : ℕ → Bytes → ℕ → Result (ℕ × ℕ)
unfolding from_binary_string
deserialize_int size raw from = do
  (val, end_pos) ← from_binary_string size raw from
  check (not (end_pos == from)) incorrect_raw
  ok (val, end_pos)

-- raw.substr(pos, count)
pub substr : Bytes → ℕ → ℕ → Result Bytes
substr raw pos count = do check (leb pos (length raw)) out_of_range; ok (take count (drop pos raw))

-- The overload with `endPos`.
pub deserialize_string_at : Bytes → ℕ → Result (Bytes × ℕ)
unfolding from_binary_string substr
deserialize_string_at raw from = do
  (size, end_pos) ← from_binary_string 8 raw from
  if from == end_pos
      then ok ([], end_pos)
      else (do str ← substr raw end_pos size; ok (str, (end_pos + size) % 2 ^ 64))

-- The overload that moves `fromPos`, and throws if nothing was read.
pub deserialize_string : Bytes → ℕ → Result (Bytes × ℕ)
unfolding deserialize_string_at
deserialize_string raw from = do
  (str, end_pos) ← deserialize_string_at raw from
  check (not (end_pos == from)) incorrect_raw
  ok (str, end_pos)
