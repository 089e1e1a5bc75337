-- ===== src/BlockInfo/Status/RoundTrip.antt =====
-- The codec of `TransactionStatus` reads back what it writes.
use node_infrastructure_torr.Prelude.{
  ◌^◌, ◌<◌, ◌≡◌, refl, arith, Bytes, [], ◌++◌, append-nil, length, ok, is_empty, false, true, Bool,
  not, ltb, ◌==◌, ◌&&◌, if◌then◌else◌, ◌∷◌, ◌∙◌,
}
use node_infrastructure_torr.Serialize.{
  serialize_int, serialize_string, serialize_string_into, deserialize_int,
}
use node_infrastructure_torr.Serialize.Cursor.{
  Decodes, Decodes-pure, pure-bind, Decodes-pure_eq, Decodes-bind, Decodes-eq, Decodes-require,
  DecodesEnd-of_Decodes, DecodesEnd-whole,
}
use node_infrastructure_torr.Serialize.RoundTrip.{
  IsU64, Decodes-int, Decodes-u64, Decodes-string, appends, serialize_string_into-append,
}
use node_infrastructure_torr.Address.{
  Address, address_of_range, set_empty, address_is_empty, get_binary_string,
  initial_wallet_transaction,
}
use node_infrastructure_torr.BlockInfo.Records.{
  UnDelegate, V8Status, Status, monostate, delegate, un_delegate, v8_status, TransactionStatus,
}
use node_infrastructure_torr.BlockInfo.Status.{
  bit, to_bool, serialize_un_delegate, deserialize_un_delegate, append_address, serialize_v8_status,
  address_of_field, deserialize_v8_status, index, visit_serialize, serialize_transaction_status,
  parse_alternative, try_parse, parse_varint, deserialize_transaction_status_at,
  deserialize_transaction_status,
}

Decodes-bit : (b : Bool) → Decodes (deserialize_int 1) (serialize_int 1 (bit b)) (bit b)
Decodes-bit true = Decodes-int 1 1 (omega arith) (omega arith)
Decodes-bit false = Decodes-int 1 0 (omega arith) (omega arith)

to_bool-bit : (b : Bool) → to_bool (bit b) ≡ b
to_bool-bit true = refl
to_bool-bit false = refl

un_delegate_fields : UnDelegate → Bytes
un_delegate_fields u = serialize_int 8 u.value ++ serialize_string u.delegate_hash

Decodes-un_delegate :
    (u : UnDelegate) → IsU64 u.value → Decodes deserialize_un_delegate (un_delegate_fields u) u
unfolding deserialize_un_delegate un_delegate_fields
Decodes-un_delegate u h = Decodes-eq (simp append-nil) (
    Decodes-bind _ _ (Decodes-u64 u.value h)
      (Decodes-bind _ _ (Decodes-string u.delegate_hash) (Decodes-pure _)))

-- An address that is set, and is the initial wallet's exactly if it has no bytes.
pub record IsStored (a : Address) : Type 0 where
  pub given : a.is_set ≡ true
  pub initial : a.is_initial_w ≡ is_empty a.address

append_address-IsStored :
    (a : Address) (buffer : Bytes)
    → IsStored a
    → append_address a buffer ≡ ok (buffer ++ serialize_string a.address)
unfolding append_address address_is_empty get_binary_string
append_address-IsStored a buffer h =
    rw (h.given, ← serialize_string_into-append a.address buffer) (by_bytes a.address)
  where
    by_bytes :
        (bytes : Bytes)
        → (if not (is_empty bytes)
            then ok (
                serialize_string_into
                  (if is_empty bytes then initial_wallet_transaction else bytes)
                  buffer)
            else ok (serialize_string_into [] buffer))
          ≡ ok (serialize_string_into bytes buffer)
    by_bytes [] = refl
    by_bytes (b ∷ bs) = refl

address_of_field_lem : (a : Address) → IsStored a → address_of_field a.address ≡ a
unfolding address_of_field address_of_range set_empty
address_of_field_lem a h = ground arith

v8_status_fields : V8Status → Bytes
v8_status_fields s =
    serialize_int 1 (bit s.is_server_error)
    ++ (serialize_int 1 (bit s.is_script_error)
        ++ serialize_string s.compiled_contract_address.address)

serialize_v8_status_lem :
    (s : V8Status) (buffer : Bytes)
    → IsStored s.compiled_contract_address
    → serialize_v8_status s buffer ≡ ok (buffer ++ v8_status_fields s)
unfolding serialize_v8_status v8_status_fields
serialize_v8_status_lem s buffer h =
    append_address-IsStored s.compiled_contract_address _ h ∙ simp appends

Decodes-v8_status :
    (s : V8Status)
    → IsStored s.compiled_contract_address
    → Decodes deserialize_v8_status (v8_status_fields s) s
unfolding deserialize_v8_status v8_status_fields
Decodes-v8_status s h = Decodes-eq (simp append-nil) (
    Decodes-bind _ _ (Decodes-bit s.is_server_error) (
      Decodes-bind _ _ (Decodes-bit s.is_script_error) (
        Decodes-bind _ _ (Decodes-string s.compiled_contract_address.address) (
          Decodes-pure_eq (
            rw (
              to_bool-bit s.is_server_error,
              to_bool-bit s.is_script_error,
              address_of_field_lem s.compiled_contract_address h,
            ))))))

-- An alternative is set, its numbers are in range, and its address is one that a contract can have.
abbrev pub IsStorable : Status → Type 0
IsStorable monostate = ⊥
IsStorable delegate = Unit {0}
IsStorable (un_delegate u) = IsU64 u.value
IsStorable (v8_status s) = IsStored s.compiled_contract_address

status_fields : Status → Bytes
status_fields monostate = []
status_fields delegate = []
status_fields (un_delegate u) = un_delegate_fields u
status_fields (v8_status s) = v8_status_fields s

visit_serialize_lem :
    (s : Status) (buffer : Bytes)
    → IsStorable s
    → visit_serialize s buffer ≡ ok (buffer ++ status_fields s)
unfolding visit_serialize status_fields serialize_un_delegate un_delegate_fields
visit_serialize_lem monostate buffer h = absurd h
visit_serialize_lem delegate buffer h = rw append-nil
visit_serialize_lem (un_delegate u) buffer h = simp appends
visit_serialize_lem (v8_status s) buffer h = serialize_v8_status_lem s buffer h

Decodes-parse_varint :
    (s : Status) → IsStorable s → Decodes (parse_varint (index s)) (status_fields s) s
unfolding parse_varint try_parse parse_alternative status_fields
Decodes-parse_varint monostate h = absurd h
Decodes-parse_varint delegate h = simp pure-bind (Decodes-pure delegate)
Decodes-parse_varint (un_delegate u) h = simp pure-bind (
    Decodes-eq (simp append-nil) (
      Decodes-bind _ _ (Decodes-bind _ _ (Decodes-un_delegate u h) (Decodes-pure _))
        (Decodes-pure _)))
Decodes-parse_varint (v8_status s) h =
    simp pure-bind
      (Decodes-eq (simp append-nil) (Decodes-bind _ _ (Decodes-v8_status s h) (Decodes-pure _)))

index_in_range : (s : Status) → IsStorable s → (not (index s == 0) && ltb (index s) 4) ≡ true
index_in_range monostate h = absurd h
index_in_range delegate h = refl
index_in_range (un_delegate u) h = refl
index_in_range (v8_status s) h = refl

set_index : (s : Status) → IsStorable s → (index s == 0) ≡ false
set_index monostate h = absurd h
set_index delegate h = refl
set_index (un_delegate u) h = refl
set_index (v8_status s) h = refl

index_small : (s : Status) → IsU64 (index s)
index_small monostate = omega arith
index_small delegate = omega arith
index_small (un_delegate u) = omega arith
index_small (v8_status s) = omega arith

transaction_status_fields : TransactionStatus → Bytes
transaction_status_fields t =
    serialize_int 1 (bit t.is_success)
    ++ (serialize_int 8 t.block_number
        ++ (serialize_string t.transaction
            ++ (serialize_int 8 (index t.status) ++ status_fields t.status)))

serialize_transaction_status_lem :
    (t : TransactionStatus) (buffer : Bytes)
    → IsStorable t.status
    → serialize_transaction_status t buffer ≡ ok (transaction_status_fields t)
unfolding serialize_transaction_status transaction_status_fields
serialize_transaction_status_lem t buffer h =
    rw (set_index t.status h) (visit_serialize_lem t.status _ h ∙ simp appends)

Decodes-transaction_status :
    (t : TransactionStatus)
    → IsU64 t.block_number
    → IsStorable t.status
    → Decodes deserialize_transaction_status_at (transaction_status_fields t) t
unfolding deserialize_transaction_status_at transaction_status_fields
Decodes-transaction_status t h k = Decodes-eq (simp append-nil) (
    Decodes-bind _ _ (Decodes-bit t.is_success) (
      Decodes-bind _ _ (Decodes-u64 t.block_number h) (
        Decodes-bind _ _ (Decodes-string t.transaction) (
          Decodes-bind _ _ (Decodes-u64 (index t.status) (index_small t.status)) (
            Decodes-bind _ _ (Decodes-require _ _ (index_in_range t.status k)) (
              Decodes-bind _ _ (Decodes-parse_varint t.status k)
                (Decodes-pure_eq (rw (to_bool-bit t.is_success)))))))))

-- What `TransactionStatus::serialize` returns is read back, with its alternative, if the numbers are
-- in range, the string is not too long, the status is set, and the address of a contract is set and
-- marked as the initial wallet's exactly if it is empty.
pub deserialize_transaction_status-serialize_transaction_status :
    (t : TransactionStatus) (buffer raw : Bytes)
    → IsU64 t.block_number
    → IsStorable t.status
    → serialize_transaction_status t buffer ≡ ok raw
    → length raw < 2 ^ 64
    → deserialize_transaction_status raw ≡ ok t
unfolding deserialize_transaction_status
deserialize_transaction_status-serialize_transaction_status t buffer raw h k e l = rw (← written) (
    DecodesEnd-whole (DecodesEnd-of_Decodes (Decodes-transaction_status t h k))
      (rw (← written) at l))
  where
    written : transaction_status_fields t ≡ raw
    written = cc (e, serialize_transaction_status_lem t buffer k)
