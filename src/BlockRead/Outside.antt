-- ===== src/BlockRead/Outside.antt =====
-- `readTransactionInfo` of src/BlockchainRead.cpp on a transaction whose data end behind the buffer.
use node_infrastructure_torr.Prelude.{
  ℕ, ◌+◌, ◌*◌, ◌^◌, ◌≤◌, ◌<◌, ◌≡◌, refl, sym, ap, ◌∙◌, arith, Bool, true, false, Bytes, ◌∷◌, ◌++◌,
  leb, le→leb, lt→ltb, ◌==◌, length, length-append, take, drop, drop-drop, take-append, drop-append,
  ok, fault,
}
use node_infrastructure_torr.BlockInfo.Records.{TransactionInfo}
use node_infrastructure_torr.BlockRead.{
  load, little_endian, read_var_int, read_by_length, read_bytes,
}
use node_infrastructure_torr.BlockRead.Fields.{TransactionHead, read_head, read_fields}
use node_infrastructure_torr.BlockRead.Transaction.{
  Libraries, PrevTransactionSignHelper, read_transaction_info,
}
use node_infrastructure_torr.BlockRead.Bounds.{slice_ok, slice_outside}

-- A number below 250 is one byte.
read_var_int-small :
    (raw : Bytes) (hi pos x : ℕ) (rest : Bytes)
    → hi ≤ length raw
    → pos + 1 ≤ hi
    → x ≤ 249
    → drop pos raw ≡ x ∷ rest
    → read_var_int raw hi pos ≡ ok (x, pos + 1)
unfolding read_var_int read_by_length load little_endian
read_var_int-small raw hi pos x rest inside fits small e =
    let same : x + 256 * 0 ≡ x = omega arith in
    rw (le→leb (pos + 1) hi fits, slice_ok raw pos 1 (omega arith), e, same, le→leb x 249 small)
      refl

-- A transaction whose bytes end with the buffer: its size, the address of the recipient, the value,
-- the fees, the nonce and the size of the data, each a number of one byte, and what follows.
abbrev transaction_bytes : ℕ → Bytes → ℕ → ℕ → ℕ → ℕ → Bytes → Bytes
transaction_bytes tx_size to_address value fees nonce data_size rest =
    tx_size ∷ (to_address ++ (value ∷ fees ∷ nonce ∷ data_size ∷ rest))

module _ (tx_size value fees nonce data_size : ℕ) (to_address rest : Bytes)
    (long : length to_address ≡ 25) (size_small : tx_size ≤ 249) (value_small : value ≤ 249)
    (fees_small : fees ≤ 249) (nonce_small : nonce ≤ 249) (data_small : data_size ≤ 249) where
  abbrev raw : Bytes
  raw = transaction_bytes tx_size to_address value fees nonce data_size rest

  length-raw : length raw ≡ 30 + length rest
  length-raw = omega (arith, length-append to_address (value ∷ fees ∷ nonce ∷ data_size ∷ rest))

  abbrev behind : Bytes
  behind = value ∷ fees ∷ nonce ∷ data_size ∷ rest

  address_read : take 25 (to_address ++ behind) ≡ to_address
  address_read = ap (λ n. take n (to_address ++ behind)) (sym long) ∙ take-append to_address behind

  behind_address : (o : ℕ) → drop (26 + o) raw ≡ drop o behind
  behind_address o =
      sym (drop-drop 26 o raw)
      ∙ ap (drop o)
          (ap (λ n. drop n (to_address ++ behind)) (sym long) ∙ drop-append to_address behind)

  abbrev head : TransactionHead
  head = record {
    to_address = to_address;
    value = value;
    fees = fees;
    nonce = nonce;
    data_size = data_size;
  }

  head_read : (hi : ℕ) → 30 ≤ hi → hi ≤ length raw → read_head raw hi 1 ≡ ok (head, 30)
  unfolding read_head read_bytes
  head_read hi h k =
      rw
        (
          le→leb 26 hi (omega arith),
          slice_ok raw 1 25 (omega arith),
          read_var_int-small raw hi 26 value _ k (omega arith) value_small (behind_address 0),
          read_var_int-small raw hi 27 fees _ k (omega arith) fees_small (behind_address 1),
          read_var_int-small raw hi 28 nonce _ k (omega arith) nonce_small (behind_address 2),
          read_var_int-small raw hi 29 data_size _ k (omega arith) data_small (behind_address 3),
        )
        (ap (λ b. ok (record head { to_address = b }, 30)) address_read)

  module _ (libraries : Libraries) where
    -- A transaction that is parsed, whose numbers up to the size of its data take a byte each, that
    -- ends inside of its buffer, but the size of whose data is more than the bytes that are left in
    -- the buffer, is read outside of the buffer.
    pub read_transaction_info_outside :
        (tx_info : TransactionInfo) (save : Bool) (helper : PrevTransactionSignHelper)
        (valid : Bool)
        → 29 ≤ tx_size
        → tx_size ≤ 29 + length rest
        → length rest < data_size
        → read_transaction_info libraries
            (transaction_bytes tx_size to_address value fees nonce data_size rest)
            (30 + length rest)
            0
            tx_info
            true
            save
            helper
            valid
          ≡ fault
    unfolding read_transaction_info read_fields
    read_transaction_info_outside tx_info save helper valid whole fits out =
        let some_size : (tx_size == 0) ≡ false = ground arith in
        let ends : leb (30 + data_size) (length raw) ≡ false = ground (arith, length-raw) in
        rw
          (
            read_var_int-small raw (30 + length rest) 0 tx_size _ (omega (arith, length-raw))
                (omega arith) size_small refl,
            some_size,
            lt→ltb tx_size (2 ^ 63) (omega arith),
            le→leb (1 + tx_size) (30 + length rest) (omega arith),
            head_read (1 + tx_size) (omega arith) (omega (arith, length-raw)),
            slice_outside raw 30 data_size ends,
          )
          refl
