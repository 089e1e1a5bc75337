-- ===== src/BlockRead/FieldBounds.antt =====
-- Where the reads of the fields of a transaction in src/BlockchainRead.cpp may look.
use node_infrastructure_torr.Prelude.{
  ℕ, ◌+◌, ◌^◌, ◌≤◌, ◌<◌, ◌≡◌, ◌⊎◌, refl, inl, inr, arith, Bytes, leb, leb→le, length, Result, ok,
  err, fault, ◌>>=◌, Bool-cases, Result-cases,
}
use node_infrastructure_torr.BlockRead.{read_var_int, read_bytes}
use node_infrastructure_torr.BlockRead.Fields.{
  RawTransaction, TransactionHead, read_head, read_int_status, read_fields,
}
use node_infrastructure_torr.BlockRead.Bounds.{
  Outcome, Outcome-bind, Ahead, slice_ok, slice_outside, read_var_int-Outcome, read_bytes-Outcome,
  read_head-Outcome, read_int_status-Outcome,
}

-- The data of the transaction at `tx_start` would end behind the buffer.
abbrev pub DataOutside : Bytes → ℕ → ℕ → Type 0
DataOutside raw hi tx_start =
    (head : TransactionHead) × (pos : ℕ) × (read_head raw hi tx_start ≡ ok (head, pos))
    × (length raw < pos + head.data_size)

-- The size of the signature of the transaction at `tx_start`, or that of its key, is 2 ^ 63 or more.
abbrev pub SizeHuge : Bytes → ℕ → ℕ → Type 0
SizeHuge raw hi tx_start =
    (head : TransactionHead) × (pos : ℕ) × (sign_size : ℕ) × (sign_pos : ℕ) × (read_head raw hi
        tx_start
      ≡ ok (head, pos))
    × (read_var_int raw hi (pos + head.data_size) ≡ ok (sign_size, sign_pos))
    × ((2 ^ 63 ≤ sign_size)
        ⊎ ((pubkey_size : ℕ) × (pubkey_pos : ℕ) × (read_var_int raw hi (sign_pos + sign_size)
              ≡ ok (pubkey_size, pubkey_pos))
            × (2 ^ 63 ≤ pubkey_size)))

-- The outcome, and that the result is the one read.
Outcome-equation :
    {A : Type 0} (Q : A → ℕ → Type 0) (F : Type 0) (m : Result (A × ℕ))
    → Outcome Q F m
    → Outcome (λ a p. Q a p × (m ≡ ok (a, p))) F m
Outcome-equation Q F (ok (a, p)) h = (h, refl)
Outcome-equation Q F (err e) h = tt
Outcome-equation Q F fault h = h

module _ (raw : Bytes) (hi : ℕ) (inside : hi ≤ length raw) where
  -- Where the reads of the fields of a transaction end, and that they do not reach further.
  abbrev pub FieldsWithin : ℕ → ℕ → RawTransaction → ℕ → Type 0
  FieldsWithin tx_size tx_start t p =
      (tx_start ≤ t.end_clear_tx)
      × (t.end_clear_tx ≤ p)
      × (tx_start < p)
      × (p ≤ hi)
      × (t.hash_size ≤ tx_size)

  size_read :
      (G : Type 0) (pos : ℕ)
      → Outcome
          (λ a p. (Ahead pos hi a p) × (read_var_int raw hi pos ≡ ok (a, p)))
          G
          (read_var_int raw hi pos)
  size_read G pos =
      Outcome-equation (Ahead pos hi) G (read_var_int raw hi pos)
        (read_var_int-Outcome raw hi inside G pos)

  -- What follows the data.
  behind_data :
      (G : Type 0) (tx_size tx_start pos : ℕ) (head : TransactionHead) (tx_data : Bytes)
      → read_head raw hi tx_start ≡ ok (head, pos)
      → tx_start < pos
      → (SizeHuge raw hi tx_start → G)
      → Outcome (FieldsWithin tx_size tx_start) G (do
        (sign_size, sign_pos) ← read_var_int raw hi (pos + head.data_size)
        (sign, key_pos) ← read_bytes sign_size raw hi sign_pos
        (pubkey_size, pubkey_pos) ← read_var_int raw hi key_pos
        (pub_key, status_pos) ← read_bytes pubkey_size raw hi pubkey_pos
        ((int_status, hash_size), pos') ← read_int_status raw hi tx_size status_pos
        ok (
          record {
            to_address = head.to_address;
            value = head.value;
            fees = head.fees;
            nonce = head.nonce;
            tx_data = tx_data;
            end_clear_tx = pos + head.data_size;
            sign = sign;
            pub_key = pub_key;
            int_status = int_status;
            hash_size = hash_size;
          },
          pos',
        ))
  behind_data G tx_size tx_start pos head tx_data e before huge =
      let clear = pos + head.data_size in
      Outcome-bind _ _ G (read_var_int raw hi clear) _ (size_read G clear) λ a p (h, f).
        Outcome-bind _ _ G (read_bytes a raw hi p) _
          (read_bytes-Outcome raw hi inside G a p (λ n. huge (head, pos, a, p, e, f, inl n)))
          λ b q (k, k'). Outcome-bind _ _ G (read_var_int raw hi q) _ (size_read G q) λ c r (l, g).
            Outcome-bind _ _ G (read_bytes c raw hi r) _
              (read_bytes-Outcome raw hi inside G c r
                (λ n. huge (head, pos, a, p, e, f, inr (c, r, rw k at g, n))))
              λ d s (m, m').
                Outcome-bind (λ a p. (s ≤ p) × (p ≤ hi) × (a.1 ≤ tx_size)) _ G
                  (read_int_status raw hi tx_size s) _
                  (read_int_status-Outcome raw hi inside G tx_size s (omega arith))
                  λ v t n. omega arith

  -- The reads of the fields are undefined only if the data end behind the buffer, or a size is 2 ^ 63
  -- or more.
  pub read_fields-Outcome :
      (G : Type 0) (tx_size tx_start : ℕ)
      → (DataOutside raw hi tx_start → G)
      → (SizeHuge raw hi tx_start → G)
      → Outcome (FieldsWithin tx_size tx_start) G (read_fields raw hi tx_size tx_start)
  unfolding read_fields
  read_fields-Outcome G tx_size tx_start outside huge =
      elim (Result-cases (read_head raw hi tx_start)) [
        | inl ((head, pos), e) ↦
            let before : Ahead tx_start hi head pos =
              rw e at (read_head-Outcome raw hi inside ⊥ tx_start) in
            elim (Bool-cases (leb (pos + head.data_size) (length raw))) [
              | inl fits ↦
                  rw (e, slice_ok raw pos head.data_size (leb→le _ _ fits))
                    (behind_data G tx_size tx_start pos head _ e before.0 huge)
              | inr out ↦
                  rw (e, slice_outside raw pos head.data_size out)
                    (outside (head, pos, e, ground arith))
            ]
        | inr (inl (x, e)) ↦ rw e tt
        | inr (inr e) ↦ absurd (rw e at (read_head-Outcome raw hi inside ⊥ tx_start))
      ]
