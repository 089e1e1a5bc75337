-- ===== src/BlockRead/Bounds.antt =====
-- Where the reads of src/BlockchainRead.cpp may look: which of them stay inside of the buffer.
use node_infrastructure_torr.Prelude.{
  ℕ, ◌+◌, ◌^◌, ◌≤◌, ◌<◌, ◌≡◌, refl, lt→ltb, inl, inr, arith, false, Bytes, ltb, leb, le→leb, leb→le,
  ◌==◌, length, take, drop, Result, ok, err, fault, ◌>>=◌, Bool-cases,
}
use node_infrastructure_torr.BlockRead.{
  slice, load, read_int, read_by_length, read_var_int, read_bytes, little_endian,
}
use node_infrastructure_torr.BlockRead.Fields.{read_head, read_int_status}

-- What holds of the value and the position that a read returns, and what where it is undefined.
abbrev pub Outcome {ℓ} : {A : Type ℓ} → (A → ℕ → Type 0) → Type 0 → Result (A × ℕ) → Type 0
Outcome Q F (ok (a, p)) = Q a p
Outcome Q F (err e) = Unit
Outcome Q F fault = F

pub Outcome-bind {ℓ κ} :
    {A : Type ℓ} {B : Type κ} (Q : A → ℕ → Type 0) (R : B → ℕ → Type 0) (F : Type 0)
    (m : Result (A × ℕ)) (f : A × ℕ → Result (B × ℕ))
    → Outcome Q F m
    → ((a : A) (p : ℕ) → Q a p → Outcome R F (f (a, p)))
    → Outcome R F (m >>= f)
Outcome-bind Q R F (ok (a, p)) f h k = k a p h
Outcome-bind Q R F (err e) f h k = tt
Outcome-bind Q R F fault f h k = h

pub Outcome-weaken {ℓ} :
    {A : Type ℓ} (Q R : A → ℕ → Type 0) (F G : Type 0) (m : Result (A × ℕ))
    → ((a : A) (p : ℕ) → Q a p → R a p)
    → (F → G)
    → Outcome Q F m
    → Outcome R G m
Outcome-weaken Q R F G (ok (a, p)) k l h = k a p h
Outcome-weaken Q R F G (err e) k l h = tt
Outcome-weaken Q R F G fault k l h = l h

-- Behind `lo`, and not behind `hi`.
abbrev pub Ahead {ℓ} : {A : Type ℓ} → ℕ → ℕ → A → ℕ → Type 0
Ahead lo hi a p = (lo < p) × (p ≤ hi)

abbrev pub NotBack {ℓ} : {A : Type ℓ} → ℕ → ℕ → A → ℕ → Type 0
NotBack lo hi a p = (lo ≤ p) × (p ≤ hi)

pub slice_ok :
    (raw : Bytes) (pos n : ℕ) → pos + n ≤ length raw → slice raw pos n ≡ ok (take n (drop pos raw))
unfolding slice
slice_ok raw pos n h = rw (le→leb (pos + n) (length raw) h) refl

pub slice_outside :
    (raw : Bytes) (pos n : ℕ) → leb (pos + n) (length raw) ≡ false → slice raw pos n ≡ fault
unfolding slice
slice_outside raw pos n h = rw h refl

module _ (raw : Bytes) (hi : ℕ) (inside : hi ≤ length raw) (F : Type 0) where
  pub read_int-Outcome :
      (size pos : ℕ)
      → 0 < size
      → size < 2 ^ 63
      → Outcome (Ahead pos hi) F (read_int size raw hi pos)
  unfolding read_int load
  read_int-Outcome size pos h l = elim (Bool-cases (leb (pos + size) hi)) [
    | inl e ↦
        let k = leb→le (pos + size) hi e in
        rw (lt→ltb size (2 ^ 63) l, e, slice_ok raw pos size (omega arith)) (omega arith)
    | inr e ↦ rw (lt→ltb size (2 ^ 63) l, e) tt
  ]

  read_by_length-Outcome :
      (len pos : ℕ) → pos ≤ hi → Outcome (NotBack pos hi) F (read_by_length len raw hi pos)
  unfolding read_by_length
  read_by_length-Outcome len pos h = elim (Bool-cases (leb len 249)) [
    | inl e ↦ rw e (omega arith)
    | inr e ↦ elim (Bool-cases (len == 250)) [
      | inl f ↦ rw (e, f) (wide 2 (omega arith) (omega arith))
      | inr f ↦ elim (Bool-cases (len == 251)) [
        | inl g ↦ rw (e, f, g) (wide 4 (omega arith) (omega arith))
        | inr g ↦ elim (Bool-cases (len == 252)) [
          | inl k ↦ rw (e, f, g, k) (wide 8 (omega arith) (omega arith))
          | inr k ↦ rw (e, f, g, k) tt
        ]
      ]
    ]
  ]
    where
      wide :
          (size : ℕ)
          → 0 < size
          → size < 2 ^ 63
          → Outcome (NotBack pos hi) F (read_int size raw hi pos)
      wide size z l =
          Outcome-weaken (Ahead pos hi) (NotBack pos hi) F F (read_int size raw hi pos)
            (λ a p q. omega arith) (λ f. f) (read_int-Outcome size pos z l)

  -- A variable integer takes at least one byte and ends inside of the buffer.
  pub read_var_int-Outcome : (pos : ℕ) → Outcome (Ahead pos hi) F (read_var_int raw hi pos)
  unfolding read_var_int load
  read_var_int-Outcome pos = elim (Bool-cases (leb (pos + 1) hi)) [
    | inl e ↦
        let k = leb→le (pos + 1) hi e in
        rw (e, slice_ok raw pos 1 (omega arith))
          (Outcome-weaken (NotBack (pos + 1) hi) (Ahead pos hi) F F _ (λ a p q. omega arith)
            (λ f. f) (read_by_length-Outcome (little_endian (take 1 (drop pos raw))) (pos + 1) k))
    | inr e ↦ rw e tt
  ]

  -- To read bytes is undefined only if their number is 2 ^ 63 or more.
  pub read_bytes-Outcome :
      (n pos : ℕ)
      → (2 ^ 63 ≤ n → F)
      → Outcome (λ b p. (p ≡ pos + n) × (p ≤ hi)) F (read_bytes n raw hi pos)
  unfolding read_bytes
  read_bytes-Outcome n pos huge = elim (Bool-cases (ltb n (2 ^ 63))) [
    | inl s ↦ elim (Bool-cases (leb (pos + n) hi)) [
      | inl e ↦
          let k = leb→le (pos + n) hi e in rw (s, e, slice_ok raw pos n (omega arith)) (refl, k)
      | inr e ↦ rw (s, e) tt
    ]
    | inr s ↦ rw s (huge (ground arith))
  ]

  pub read_head-Outcome : (pos : ℕ) → Outcome (Ahead pos hi) F (read_head raw hi pos)
  unfolding read_head
  read_head-Outcome pos =
      Outcome-bind (λ b p. (p ≡ pos + 25) × (p ≤ hi)) (Ahead pos hi) F (read_bytes 25 raw hi pos) _
        (read_bytes-Outcome 25 pos (λ huge. absurd (omega arith)))
        λ a p h.
          Outcome-bind (Ahead p hi) (Ahead pos hi) F (read_var_int raw hi p) _
            (read_var_int-Outcome p)
            λ b q k.
              Outcome-bind (Ahead q hi) (Ahead pos hi) F (read_var_int raw hi q) _
                (read_var_int-Outcome q)
                λ c r l.
                  Outcome-bind (Ahead r hi) (Ahead pos hi) F (read_var_int raw hi r) _
                    (read_var_int-Outcome r)
                    λ d s m.
                      Outcome-bind (Ahead s hi) (Ahead pos hi) F (read_var_int raw hi s) _
                        (read_var_int-Outcome s) λ e t n. omega arith

  pub read_int_status-Outcome :
      (tx_size pos : ℕ)
      → pos ≤ hi
      → Outcome
          (λ a p. (pos ≤ p) × (p ≤ hi) × (a.1 ≤ tx_size))
          F
          (read_int_status raw hi tx_size pos)
  unfolding read_int_status
  read_int_status-Outcome tx_size pos h = elim (Bool-cases (ltb pos hi)) [
    | inl e ↦ rw e (
        Outcome-bind (Ahead pos hi) (λ a p. (pos ≤ p) × (p ≤ hi) × (a.1 ≤ tx_size)) F
          (read_var_int raw hi pos) _ (read_var_int-Outcome pos) λ a p k. omega arith)
    | inr e ↦ rw e (omega arith)
  ]
