-- ===== src/BlockRead.antt =====
-- The reads of src/BlockchainRead.cpp. A buffer is its bytes, and a pointer into it is its offset;
-- `cur_pos + n` is the sum, also where it lies outside of the buffer, unless it may wrap. A machine
-- with addresses below 2 ^ 63 is assumed, and with the least significant byte first, as the files of
-- the program are written by one. A read outside of the buffer is undefined.
pub mod Fields
pub mod Transaction
pub mod Block
pub mod File
pub mod Bounds
pub mod FieldBounds
pub mod Total
pub mod Outside
pub mod Loop
pub mod Dumps
pub mod Saved
mod Tests
use node_infrastructure_torr.Prelude.{
  ℕ, ◌+◌, ◌*◌, ◌^◌, Bytes, [], ◌∷◌, ltb, leb, ◌==◌, if◌then◌else◌, length, take, drop, Result, ok,
  err, fault, ◌>>=◌, ◌>>◌, check, end_of_array, unsupported,
}

-- cur_pos + n. A pointer that is moved by less than 2 ^ 63 does not wrap; one that is moved by more
-- may, and then pass a check against the end of the buffer, which is undefined.
abbrev pub forward : ℕ → ℕ → Result ℕ
forward pos n = if ltb n (2 ^ 63) then ok (pos + n) else fault

-- The bytes between cur_pos and cur_pos + n.
unfoldable pub slice : Bytes → ℕ → ℕ → Result Bytes
slice raw pos n = if leb (pos + n) (length raw) then ok (take n (drop pos raw)) else fault

-- The number that the bytes are in memory.
unfoldable pub little_endian : Bytes → ℕ
little_endian [] = 0
little_endian (b ∷ rest) = b + 256 * little_endian rest

-- *(const T *)cur_pos, with sizeof(T)
unfoldable pub load : ℕ → Bytes → ℕ → Result ℕ
load size raw pos = do b ← slice raw pos size; ok (little_endian b)

-- readInt<T>(cur_pos, end_pos): the value, and the new position
unfoldable pub read_int : ℕ → Bytes → ℕ → ℕ → Result (ℕ × ℕ)
read_int size raw end_pos cur_pos = do
  next ← forward cur_pos size
  check (leb next end_pos) end_of_array
  t ← load size raw cur_pos
  ok (t, next)

-- readVarInt behind its first byte
unfoldable pub read_by_length : ℕ → Bytes → ℕ → ℕ → Result (ℕ × ℕ)
read_by_length len raw end_pos cur_pos =
    if leb len 249
    then ok (len, cur_pos)
    else if len == 250
    then read_int 2 raw end_pos cur_pos
    else if len == 251
    then read_int 4 raw end_pos cur_pos
    else if len == 252
    then read_int 8 raw end_pos cur_pos
    else err unsupported

-- readVarInt(cur_pos, end_pos)
unfoldable pub read_var_int : Bytes → ℕ → ℕ → Result (ℕ × ℕ)
read_var_int raw end_pos cur_pos = do
  check (leb (cur_pos + 1) end_pos) end_of_array
  len ← load 1 raw cur_pos
  read_by_length len raw end_pos (cur_pos + 1)

-- CHECK(cur_pos + n <= end_pos, ...), and the bytes
unfoldable pub read_bytes : ℕ → Bytes → ℕ → ℕ → Result (Bytes × ℕ)
read_bytes n raw end_pos cur_pos = do
  next ← forward cur_pos n
  check (leb next end_pos) end_of_array
  b ← slice raw cur_pos n
  ok (b, next)
