-- ===== src/Batches/Numbers.antt =====
-- Which blocks a part of src/BlockSource/GetNewBlocksFromServers.cpp asks for.
use node_infrastructure_torr.Prelude.{
  ℕ, ◌+◌, ◌*◌, ◌%◌, ◌^◌, ◌<◌, ◌≡◌, ◌≢◌, ◌⊎◌, inl, inr, refl, arith, true, false, List, [], ◌∷◌,
  ◌==◌, ==_iff, Bool-cases, same_or_not,
}
use node_infrastructure_torr.Batches.{
  HeaderRequest, get_blocks, get_block_by_number, blocks_in_part, header_request, numbers_from,
  stored_numbers,
}

-- The blocks that a request is for: `countBlocks` blocks from `beginBlock` on, or the one named.
abbrev pub asked_numbers : HeaderRequest → List ℕ
asked_numbers (get_blocks begin count) = numbers_from begin count
asked_numbers (get_block_by_number number) = number ∷ []

module _ (block_num count batch i : ℕ) where
  of_several :
      (blocks_in_part count batch i == 1) ≡ false
      → asked_numbers (header_request block_num count batch i)
        ≡ stored_numbers block_num count batch i
  unfolding header_request stored_numbers
  of_several e = rw e

  of_one :
      (blocks_in_part count batch i == 1) ≡ true
      → (asked_numbers (header_request block_num count batch i) ≡ (((block_num + i) % 2 ^ 64) ∷ []))
        × (stored_numbers block_num count batch i ≡ (((block_num + i * batch) % 2 ^ 64) ∷ []))
  unfolding header_request stored_numbers
  of_one e = rw e (refl, refl)

  -- As long as no number wraps, a part asks for the blocks under whose numbers it stores the
  -- headers, or it has one block, and asks for another block than the one under whose number it
  -- stores the header.
  pub header_request_cases :
      block_num + i + i * batch < 2 ^ 64
      → (asked_numbers (header_request block_num count batch i)
          ≡ stored_numbers block_num count batch i)
        ⊎ ((blocks_in_part count batch i ≡ 1)
            × (asked_numbers (header_request block_num count batch i) ≡ ((block_num + i) ∷ []))
            × (stored_numbers block_num count batch i ≡ ((block_num + i * batch) ∷ []))
            × (block_num + i ≢ block_num + i * batch))
  header_request_cases l = elim (Bool-cases (blocks_in_part count batch i == 1)) [
    | inr e ↦ inl (of_several e)
    | inl e ↦
        let (asked, stored) = of_one e in
        let asked' : (block_num + i) % 2 ^ 64 ≡ block_num + i = omega arith in
        let stored' : (block_num + i * batch) % 2 ^ 64 ≡ block_num + i * batch = omega arith in
        elim (same_or_not (block_num + i) (block_num + i * batch)) [
          | inl same ↦ inl (cc (asked, stored, asked', stored', same))
          | inr other ↦ inr (
            (==_iff (blocks_in_part count batch i) 1).0 e,
            cc (asked, asked'),
            cc (stored, stored'),
            other,
          )
        ]
  ]
