-- ===== src/BlockInfo/Transactions/MaxBlock.antt =====
-- `getMaxBlockNumber` and `isGreater` of src/BlockInfo.cpp, which look at the first and at the last.
use node_infrastructure_torr.Prelude.{
  ℕ, ◌≤◌, ◌<◌, ◌≡◌, ◌⊎◌, inl, inr, refl, arith, true, false, List, [], ◌∷◌, All, All-map, suc,
  Bool-cases, get_elem?, some, ltb, ltb→lt,
}
use node_infrastructure_torr.BlockInfo.Transactions.{back, get_max_block_number, is_greater}

module _ {ℓ} {A : Type ℓ} (number : A → ℕ) where
  abbrev pub IsAscending : List A → Type 0
  IsAscending [] = Unit
  IsAscending (t ∷ rest) = All (λ u. number t ≤ number u) rest × IsAscending rest

  abbrev pub IsDescending : List A → Type 0
  IsDescending [] = Unit
  IsDescending (t ∷ rest) = All (λ u. number u ≤ number t) rest × IsDescending rest

  pub below_last :
      (t : A) (rest : List A)
      → IsAscending (t ∷ rest)
      → All (λ u. number u ≤ number (back t rest)) (t ∷ rest)
  below_last t [] a = (omega arith, tt)
  below_last t (u ∷ rest) ((h, _), a) = let (k, ks) = below_last u rest a in (omega arith, (k, ks))

  -- Where the infos are in the order of their blocks, in either direction, `getMaxBlockNumber` is no
  -- less than the block number of any.
  All-below :
      (infos : List A)
      → IsAscending infos ⊎ IsDescending infos
      → All (λ t. number t ≤ get_max_block_number number infos) infos
  unfolding get_max_block_number
  All-below [] o = tt
  All-below (t ∷ rest) (inl a) = All-map (t ∷ rest) (λ u h. omega arith) (below_last t rest a)
  All-below (t ∷ rest) (inr (a, _)) = (omega arith, All-map rest (λ u h. omega arith) a)

  last_index : (t : A) (rest : List A) → (i : ℕ) × (get_elem? (t ∷ rest) i ≡ some (back t rest))
  last_index t [] = (0, refl)
  last_index t (u ∷ rest) = let (i, e) = last_index u rest in (suc i, e)

  -- Where the infos are in the order of their blocks, in either direction, `isGreater` holds exactly
  -- if one of them is of a later block: some info is, or no info is.
  pub is_greater_cases :
      (infos : List A) (block_number : ℕ)
      → IsAscending infos ⊎ IsDescending infos
      → ((is_greater number infos block_number ≡ true)
          × ((i : ℕ) × (t : A) × (get_elem? infos i ≡ some t) × (block_number < number t)))
        ⊎ ((is_greater number infos block_number ≡ false)
            × All (λ t. number t ≤ block_number) infos)
  unfolding is_greater get_max_block_number
  is_greater_cases [] n o = inr (refl, tt)
  is_greater_cases (t ∷ rest) n o = elim (Bool-cases (ltb n (number t))) [
    | inl h ↦ inl (ground (arith, ltb→lt n (number t) h), (0, t, refl, ltb→lt n (number t) h))
    | inr h ↦ elim (Bool-cases (ltb n (number (back t rest)))) [
      | inl k ↦
          let (i, e) = last_index t rest in
          inl (
            ground (arith, ltb→lt n (number (back t rest)) k),
            (i, back t rest, e, ltb→lt n (number (back t rest)) k),
          )
      | inr k ↦ inr (
        ground arith,
        All-map (t ∷ rest) (λ u b. ground arith)
            (unfold get_max_block_number in All-below (t ∷ rest) o),
      )
    ]
  ]

  -- A later block at the head is enough.
  pub is_greater_first :
      (t : A) (rest : List A) (n : ℕ) → n < number t → is_greater number (t ∷ rest) n ≡ true
  unfolding is_greater get_max_block_number
  is_greater_first t rest n h = ground arith

  pub get_max_block_number_first :
      (t : A) (rest : List A) → number t ≤ get_max_block_number number (t ∷ rest)
  unfolding get_max_block_number
  get_max_block_number_first t rest = omega arith
