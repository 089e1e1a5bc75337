-- ===== src/BlockInfo/Codec/RoundTrip.antt =====
-- The codecs of src/BlockInfo.cpp read back what they write.
use node_infrastructure_torr.Prelude.{
  ℕ, ◌^◌, ◌<◌, ◌≡◌, arith, Bytes, [], ◌++◌, append_assoc, append-nil, length, length-append, none,
  some, Option, ok, is_empty, is_empty_of_pos, not,
}
use node_infrastructure_torr.Serialize.{serialize_int, serialize_string}
use node_infrastructure_torr.Serialize.Cursor.{
  Decodes, Decodes-pure, Decodes-bind, Decodes-eq, Decodes-moving, DecodesEnd,
  DecodesEnd-of_Decodes, DecodesEnd-bind, DecodesEnd-has_more, DecodesEnd-whole, whole,
}
use node_infrastructure_torr.Serialize.RoundTrip.{
  IsU64, appends, serialize_int_into-append, Decodes-u64, Decodes-string_at,
  Decodes-from_binary_string, length-serialize_int, length-serialize_string,
}
use node_infrastructure_torr.BlockInfo.Records.{
  FilePosition, AddressInfo, TransactionInfo, FileInfo,
}
use node_infrastructure_torr.BlockInfo.Codec.{
  serialize_file_position, serialize_file_position_into, deserialize_file_position_at,
  deserialize_file_position, serialize_transaction_info, deserialize_transaction_info,
  serialize_address_info, read_optional, append_optional, deserialize_address_info_at,
  deserialize_address_info, serialize_file_info, deserialize_file_info,
}

-- Both overloads of `FilePosition::serialize` write the same bytes.
pub serialize_file_position_into-append :
    (p : FilePosition) (buffer : Bytes)
    → serialize_file_position_into p buffer ≡ buffer ++ serialize_file_position p
unfolding serialize_file_position_into serialize_file_position
serialize_file_position_into-append p buffer = simp appends

Decodes-file_position_at :
    (p : FilePosition)
    → IsU64 p.pos
    → Decodes deserialize_file_position_at (serialize_file_position p) p
unfolding deserialize_file_position_at serialize_file_position
Decodes-file_position_at p h = Decodes-eq (simp append-nil) (
    Decodes-bind _ _
      (Decodes-moving (Decodes-string_at p.file_name)
        (omega (arith, length-serialize_string p.file_name)))
      (Decodes-bind _ _
        (Decodes-moving (Decodes-from_binary_string 8 p.pos (omega arith))
          (omega (arith, length-serialize_int 8 p.pos)))
        (Decodes-pure _)))

pub Decodes-file_position :
    (p : FilePosition)
    → IsU64 p.pos
    → Decodes deserialize_file_position (serialize_file_position p) p
unfolding deserialize_file_position serialize_file_position
Decodes-file_position p h = Decodes-moving (Decodes-file_position_at p h) (
    omega (
      arith,
      length-append (serialize_string p.file_name) (serialize_int 8 p.pos),
      length-serialize_int 8 p.pos,
    ))

-- `FileInfo::deserialize` reads back what `FileInfo::serialize` writes.
pub deserialize_file_info-serialize_file_info :
    (f : FileInfo)
    → IsU64 f.file_pos.pos
    → length (serialize_file_info f) < 2 ^ 64
    → deserialize_file_info (serialize_file_info f) ≡ ok f
unfolding deserialize_file_info serialize_file_info
deserialize_file_info-serialize_file_info f h k =
    rw (DecodesEnd-whole (DecodesEnd-of_Decodes (Decodes-file_position_at f.file_pos h)) k)

-- What a `TransactionInfo` writes is read back as its file position and block number, if these are
-- in range and the string is not too long, and the other members are those of the new
-- `TransactionInfo`; the old content of the buffer is dropped.
pub deserialize_transaction_info-serialize_transaction_info :
    (t result : TransactionInfo) (buffer : Bytes)
    → IsU64 t.file_pos.pos
    → IsU64 t.block_number
    → length (serialize_transaction_info t buffer) < 2 ^ 64
    → whole (deserialize_transaction_info result) (serialize_transaction_info t buffer)
      ≡ ok (record result { file_pos = t.file_pos; block_number = t.block_number })
deserialize_transaction_info-serialize_transaction_info t result buffer h k =
    DecodesEnd-whole (DecodesEnd-of_Decodes fields)
  where
    fields :
        Decodes
          (deserialize_transaction_info result)
          (serialize_transaction_info t buffer)
          (record result { file_pos = t.file_pos; block_number = t.block_number })
    fields =
        unfold deserialize_transaction_info serialize_transaction_info in
        Decodes-eq (simp (appends, serialize_file_position_into-append)) (
          Decodes-bind _ _ (Decodes-file_position t.file_pos h)
            (Decodes-bind _ _ (Decodes-u64 t.block_number k) (Decodes-pure _)))

abbrev OptionalIsU64 : Option ℕ → Type 0
OptionalIsU64 none = Unit {0}
OptionalIsU64 (some v) = IsU64 v

-- The optional last field, from the end of the string.
module _ (a : AddressInfo) (h : IsU64 a.file_pos.pos) (k : IsU64 a.block_number) where
  abbrev head_fields : Bytes
  head_fields = serialize_file_position a.file_pos ++ serialize_int 8 a.block_number

  Decodes-undelegate_value :
      (o : Option ℕ) (enc : Bytes)
      → Decodes (read_optional (not (is_empty enc))) enc o
      → DecodesEnd deserialize_address_info_at
          (head_fields ++ enc)
          (record a { undelegate_value = o })
  unfolding deserialize_address_info_at
  Decodes-undelegate_value o enc d =
      rw (append_assoc (serialize_file_position a.file_pos) (serialize_int 8 a.block_number) enc) (
        DecodesEnd-bind _ _ (Decodes-file_position a.file_pos h) (
          DecodesEnd-bind _ _ (Decodes-u64 a.block_number k) (
            DecodesEnd-has_more _ enc (
              DecodesEnd-of_Decodes
                (Decodes-eq (append-nil enc) (Decodes-bind _ _ d (Decodes-pure _)))))))

  Decodes-address_info :
      (o : Option ℕ)
      → OptionalIsU64 o
      → DecodesEnd deserialize_address_info_at
          (append_optional o head_fields)
          (record a { undelegate_value = o })
  Decodes-address_info none l =
      rw (append-nil) at (Decodes-undelegate_value none [] (Decodes-pure none))
  Decodes-address_info (some v) l = rw (serialize_int_into-append 8 v head_fields) (
      Decodes-undelegate_value (some v) (serialize_int 8 v) (
        rw (is_empty_of_pos (serialize_int 8 v) (omega (arith, length-serialize_int 8 v))) (
          Decodes-eq (append-nil (serialize_int 8 v))
            (Decodes-bind _ _ (Decodes-u64 v l) (Decodes-pure (some v))))))

-- `AddressInfo::deserialize` reads back what `AddressInfo::serialize` writes, whether or not the
-- value of an undelegation is there, if the numbers are in range and the string is not too long;
-- the old content of the buffer is dropped.
pub deserialize_address_info-serialize_address_info :
    (a : AddressInfo) (buffer : Bytes)
    → IsU64 a.file_pos.pos
    → IsU64 a.block_number
    → OptionalIsU64 a.undelegate_value
    → length (serialize_address_info a buffer) < 2 ^ 64
    → deserialize_address_info (serialize_address_info a buffer) ≡ ok a
unfolding deserialize_address_info serialize_address_info
deserialize_address_info-serialize_address_info a buffer h k l m =
    DecodesEnd-whole
      (simp (appends, serialize_file_position_into-append)
        (Decodes-address_info a h k a.undelegate_value l))
      m
