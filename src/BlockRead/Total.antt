-- ===== src/BlockRead/Total.antt =====
-- `readTransactionInfo` of src/BlockchainRead.cpp moves forward inside of its buffer, but for data
-- that end behind the buffer and sizes that move a pointer by 2 ^ 63 or more.
use node_infrastructure_torr.Prelude.{
  ℕ, ◌+◌, ◌-◌, ◌^◌, ◌≤◌, ◌<◌, ◌≡◌, ◌⊎◌, inl, inr, arith, Bool, true, false, not, Bytes, is_empty,
  [], ◌∷◌, ltb, leb, leb→le, ◌==◌, length, Result, ok, err, fault, ◌>>=◌, check, Error, Bool-cases,
  Result-cases, not_success, not_set,
}
use node_infrastructure_torr.Address.{
  address_of_vector, address_of_range, address_eq, is_initial_wallet, is_script_address,
}
use node_infrastructure_torr.BlockInfo.Records.{TransactionInfo}
use node_infrastructure_torr.BlockInfo.Transactions.{calc_real_fee}
use node_infrastructure_torr.Keys.{get_double_sha256, get_address_bin, get_address_comp}
use node_infrastructure_torr.BlockRead.{slice, read_var_int}
use node_infrastructure_torr.BlockRead.Fields.{RawTransaction, read_fields}
use node_infrastructure_torr.BlockRead.Transaction.{
  Libraries, PrevTransactionSignHelper, public_key, sender, is_sign_block_tx, validate,
  filled_transaction, finish_transaction, fill_transaction, read_transaction_info,
}
use node_infrastructure_torr.BlockRead.Bounds.{
  Outcome, Outcome-bind, Ahead, slice_ok, read_var_int-Outcome,
}
use node_infrastructure_torr.BlockRead.FieldBounds.{
  FieldsWithin, DataOutside, SizeHuge, read_fields-Outcome,
}

-- Returns or throws.
abbrev pub IsDefined {ℓ} : {A : Type ℓ} → Result A → Type 0
IsDefined (ok a) = Unit
IsDefined (err e) = Unit
IsDefined fault = ⊥

pub IsDefined-bind {ℓ κ} :
    {A : Type ℓ} {B : Type κ} (m : Result A) (f : A → Result B)
    → IsDefined m
    → ((a : A) → IsDefined (f a))
    → IsDefined (m >>= f)
IsDefined-bind (ok a) f h k = k a
IsDefined-bind (err e) f h k = tt
IsDefined-bind fault f h k = h

check-IsDefined : (b : Bool) (e : Error) → IsDefined (check b e)
check-IsDefined true e = tt
check-IsDefined false e = tt

slice-IsDefined : (raw : Bytes) (pos n : ℕ) → pos + n ≤ length raw → IsDefined (slice raw pos n)
slice-IsDefined raw pos n h = rw (slice_ok raw pos n h) tt

address_of_vector-IsDefined :
    (bytes : Bytes) (blocked : Bool)
    → not (is_empty bytes) ≡ true
    → IsDefined (address_of_vector bytes blocked)
unfolding address_of_vector
address_of_vector-IsDefined [] blocked h = cc h
address_of_vector-IsDefined (b ∷ bytes) true h = tt
address_of_vector-IsDefined (b ∷ bytes) false h = tt

module _ (libraries : Libraries) where
  open libraries use {crypto}

  get_address_bin-IsDefined : (pubk : Bytes) → IsDefined (get_address_bin crypto true pubk)
  unfolding get_address_bin get_address_comp
  get_address_bin-IsDefined pubk = tt

  sender-IsDefined :
      (t : RawTransaction) (tx_info : TransactionInfo) → IsDefined (sender libraries t tx_info)
  unfolding sender
  sender-IsDefined t tx_info = elim (Bool-cases (is_empty (public_key t tx_info))) [
    | inl e ↦ rw e tt
    | inr e ↦ rw e (
        IsDefined-bind (get_address_bin crypto true (public_key t tx_info)) _
          (get_address_bin-IsDefined (public_key t tx_info))
          λ bin. elim (Bool-cases (not (is_empty bin))) [
            | inl f ↦ rw f (address_of_vector-IsDefined bin _ f)
            | inr f ↦ rw f tt
          ])
  ]

  sign-IsDefined :
      (tx_info : TransactionInfo) (helper : PrevTransactionSignHelper)
      → IsDefined (is_sign_block_tx tx_info helper)
  unfolding is_sign_block_tx address_eq
  sign-IsDefined tx_info helper = elim (Bool-cases (not helper.is_prev_sign)) [
    | inl e ↦ rw e tt
    | inr e ↦ rw e (
        IsDefined-bind (address_eq tx_info.from_address tx_info.to_address) _
          (IsDefined-bind (check tx_info.from_address.is_set not_set) _ (check-IsDefined _ not_set)
            λ u.
              IsDefined-bind (check tx_info.to_address.is_set not_set) _ (check-IsDefined _ not_set)
                λ v. tt)
          λ same. tt)
  ]

  validate-IsDefined :
      (is_validate : Bool) (tx_info : TransactionInfo) (clear : Bytes)
      → IsDefined (validate libraries is_validate tx_info clear)
  unfolding validate is_initial_wallet
  validate-IsDefined false tx_info clear = tt
  validate-IsDefined true tx_info clear =
      IsDefined-bind (is_initial_wallet tx_info.from_address) _
        (IsDefined-bind (check tx_info.from_address.is_set not_set) _ (check-IsDefined _ not_set)
          λ u. tt)
        λ initial. check-IsDefined _ not_success

  fees-IsDefined : (tx_info : TransactionInfo) → IsDefined (calc_real_fee tx_info)
  unfolding calc_real_fee
  fees-IsDefined tx_info =
      IsDefined-bind (check (ltb 0 tx_info.size_raw_tx) not_set) _ (check-IsDefined _ not_set)
        λ u. tt

  finish-IsDefined :
      (valid : Bool) (helper : PrevTransactionSignHelper) (clear : Bytes) (filled : TransactionInfo)
      → IsDefined (finish_transaction libraries valid helper clear filled)
  unfolding finish_transaction
  finish-IsDefined valid helper clear filled =
      IsDefined-bind (is_sign_block_tx filled helper) _ (sign-IsDefined filled helper) λ is_sign.
        IsDefined-bind (validate libraries valid filled clear) _
          (validate-IsDefined valid filled clear)
          λ u.
            IsDefined-bind (calc_real_fee (record filled { is_sign_block_tx = is_sign })) _
              (fees-IsDefined (record filled { is_sign_block_tx = is_sign })) λ fees. tt

  fill_transaction-IsDefined :
      (raw : Bytes) (save valid : Bool) (helper : PrevTransactionSignHelper)
      (tx_size all_start tx_start all_end : ℕ) (t : RawTransaction) (tx_info : TransactionInfo)
      → tx_start + t.hash_size ≤ length raw
      → tx_start ≤ t.end_clear_tx
      → t.end_clear_tx ≤ all_end
      → all_start ≤ tx_start
      → all_end ≤ length raw
      → IsDefined (
          fill_transaction libraries raw save valid helper tx_size all_start tx_start all_end t
            tx_info)
  unfolding fill_transaction is_script_address address_of_range get_double_sha256
  fill_transaction-IsDefined raw save valid helper tx_size all_start tx_start all_end t tx_info h k
        l m n =
      IsDefined-bind (is_script_address (address_of_range t.to_address)) _ tt λ is_script.
        IsDefined-bind (sender libraries t tx_info) _ (sender-IsDefined t tx_info) λ from.
          IsDefined-bind (slice raw tx_start t.hash_size) _ (slice-IsDefined raw _ _ h) λ hashed.
            IsDefined-bind (get_double_sha256 crypto true hashed) _ tt λ tx_hash.
              IsDefined-bind (slice raw tx_start (t.end_clear_tx - tx_start)) _
                (slice-IsDefined raw _ _ (omega arith))
                λ clear.
                  IsDefined-bind (slice raw all_start (all_end - all_start)) _
                    (slice-IsDefined raw _ _ (omega arith))
                    λ all_raw. finish-IsDefined valid helper clear (
                      filled_transaction libraries save t is_script from tx_hash clear all_raw
                        tx_size tx_info)

  -- Of the transaction whose size stands at `cur_pos`: its size is 2 ^ 63 or more, or it is parsed, and
  -- its data end behind the buffer, or the size of its signature or of its key is 2 ^ 63 or more.
  abbrev pub IsUndefined : Bool → Bytes → ℕ → ℕ → Type 0
  IsUndefined parse raw hi cur_pos =
      (tx_size : ℕ) × (tx_start : ℕ) × (read_var_int raw hi cur_pos ≡ ok (tx_size, tx_start))
      × ((2 ^ 63 ≤ tx_size)
          ⊎ ((parse ≡ true)
              × (DataOutside raw (tx_start + tx_size) tx_start
                  ⊎ SizeHuge raw (tx_start + tx_size) tx_start)))

  -- A position that was checked, and a result that is defined.
  Outcome-filled :
      (G : Type 0) (lo hi tx_size p : ℕ) (m : Result TransactionInfo)
      → Ahead lo hi tx_size p
      → IsDefined m
      → Outcome {A = ℕ × TransactionInfo} (Ahead lo hi) G (do filled ← m; ok ((tx_size, filled), p))
  Outcome-filled G lo hi tx_size p (ok a) h d = h
  Outcome-filled G lo hi tx_size p (err e) h d = tt
  Outcome-filled G lo hi tx_size p fault h d = absurd d

  parsed :
      (G : Type 0) (raw : Bytes) (hi cur_pos tx_size tx_start : ℕ) (tx_info : TransactionInfo)
      (save : Bool) (helper : PrevTransactionSignHelper) (valid : Bool)
      → hi ≤ length raw
      → cur_pos < tx_start
      → tx_start + tx_size ≤ hi
      → (DataOutside raw (tx_start + tx_size) tx_start ⊎ SizeHuge raw (tx_start + tx_size) tx_start
          → G)
      → Outcome {A = ℕ × TransactionInfo} (Ahead cur_pos hi) G (do
        (t, all_end) ← read_fields raw (tx_start + tx_size) tx_size tx_start
        filled ←
            fill_transaction libraries raw save valid helper tx_size cur_pos tx_start all_end t
              tx_info
        ok ((tx_size, filled), all_end))
  parsed G raw hi cur_pos tx_size tx_start tx_info save helper valid inside ahead fits undefined =
      Outcome-bind (FieldsWithin raw (tx_start + tx_size) (omega arith) tx_size tx_start)
        (Ahead cur_pos hi) G (read_fields raw (tx_start + tx_size) tx_size tx_start) _
        (read_fields-Outcome raw (tx_start + tx_size) (omega arith) G tx_size tx_start
          (λ d. undefined (inl d)) (λ d. undefined (inr d)))
        λ t p w. Outcome-filled G cur_pos hi tx_size p _ (omega arith) (
          fill_transaction-IsDefined raw save valid helper tx_size cur_pos tx_start p t tx_info
            (omega arith) (omega arith) (omega arith) (omega arith) (omega arith))

  read_outcome :
      (G : Type 0) (raw : Bytes) (hi cur_pos : ℕ) (tx_info : TransactionInfo) (parse save : Bool)
      (helper : PrevTransactionSignHelper) (valid : Bool)
      → hi ≤ length raw
      → (IsUndefined parse raw hi cur_pos → G)
      → Outcome
          (Ahead cur_pos hi)
          G
          (read_transaction_info libraries raw hi cur_pos tx_info parse save helper valid)
  unfolding read_transaction_info
  read_outcome G raw hi cur_pos tx_info parse save helper valid inside undefined =
      elim (Result-cases (read_var_int raw hi cur_pos)) [
        | inl ((tx_size, tx_start), e) ↦
            let ahead : Ahead cur_pos hi tx_size tx_start =
              rw e at (read_var_int-Outcome raw hi inside ⊥ cur_pos) in
            elim (Bool-cases (tx_size == 0)) [
              | inl z ↦ rw (e, z) ahead
              | inr z ↦ elim (Bool-cases (ltb tx_size (2 ^ 63))) [
                | inl s ↦ elim (Bool-cases (leb (tx_start + tx_size) hi)) [
                  | inl f ↦
                      let fits = leb→le (tx_start + tx_size) hi f in
                      elim (Bool-cases parse) [
                        | inl p ↦
                            rw (e, z, s, f, p)
                              (parsed G raw hi cur_pos tx_size tx_start tx_info save helper valid
                                inside ahead.0 fits
                                (λ d. undefined (tx_size, tx_start, e, inr (p, d))))
                        | inr p ↦ rw (e, z, s, f, p) (omega arith)
                      ]
                  | inr f ↦ rw (e, z, s, f) tt
                ]
                | inr s ↦ rw (e, z, s) (undefined (tx_size, tx_start, e, inl (ground arith)))
              ]
            ]
        | inr (inl (x, e)) ↦ rw e tt
        | inr (inr e) ↦ absurd (rw e at (read_var_int-Outcome raw hi inside ⊥ cur_pos))
      ]

  -- In a buffer that has the bytes up to `end_pos`, a transaction that is read, or passed over, is
  -- behind its start and ends at `end_pos` at most. To read it is undefined only if its data, by the
  -- size that stands in it, end behind the buffer, or its own size, or that of its signature or key,
  -- is 2 ^ 63 or more; to pass it over is undefined only for its own size.
  pub read_transaction_info-Outcome :
      (raw : Bytes) (hi cur_pos : ℕ) (tx_info : TransactionInfo) (parse save : Bool)
      (helper : PrevTransactionSignHelper) (valid : Bool)
      → hi ≤ length raw
      → Outcome
          (Ahead cur_pos hi)
          (IsUndefined parse raw hi cur_pos)
          (read_transaction_info libraries raw hi cur_pos tx_info parse save helper valid)
  read_transaction_info-Outcome raw hi cur_pos tx_info parse save helper valid inside =
      read_outcome _ raw hi cur_pos tx_info parse save helper valid inside (λ d. d)
