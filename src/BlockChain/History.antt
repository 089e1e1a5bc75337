-- ===== src/BlockChain/History.antt =====
-- The chain of src/BlockChain.cpp after any calls of `addBlock`, and what its getters answer.
use node_infrastructure_torr.Prelude.{
  ℕ, suc, ◌+◌, ◌-◌, ◌^◌, ◌<◌, ◌≤◌, ◌≡◌, refl, sym, ap, ◌∙◌, ◌⊎◌, inl, inr, arith, false, Bytes,
  List, [], ◌∷◌, none, some, length, length-append, get_elem?, get_elem?-append,
  get_elem?-append_left, get_elem?_inside, is_empty, bytes_eq, bytes_eq_iff, bytes_ne, find,
  find-assign_self, find-assign_ne, Bool-cases, Option-cases, ok, All, Error, ◌==◌, ==_iff,
}
use node_infrastructure_torr.BlockInfo.Records.{BlockHeader}
use node_infrastructure_torr.BlockChain.{
  BlockChain, Exit, returned, thrown, dangling, unfinished, with_number, add_block, get_block,
  get_block_by_number, get_last_block, count_blocks,
}
use node_infrastructure_torr.BlockChain.Invariant.{
  IsIndexed, extended, extended-IsIndexed, other_hash,
}
use node_infrastructure_torr.BlockChain.NewBlock.{IsNew}
use node_infrastructure_torr.BlockChain.AddBlock.{
  IsAcceptable, add_block_accepts, add_block_refuses,
}

IsAcceptable-or_not :
    (bc : BlockChain) (b : BlockHeader) → IsIndexed bc → IsAcceptable bc b ⊎ ¬ (IsAcceptable bc b)
IsAcceptable-or_not bc b v = elim (Option-cases (find b.prev_hash bc.blocks)) [
  | inl e ↦ elim (Bool-cases (length bc.hashes == 1)) [
    | inl l ↦ inl (inr (e, (==_iff (length bc.hashes) 1).0 l))
    | inr l ↦ inr λ a. elim a [
      | inl last ↦ let (p, f, z) = v.filled (length bc.hashes - 1) b.prev_hash last in cc (e, f)
      | inr (_, one) ↦ ground (arith, one, l)
    ]
  ]
  | inr (p, e) ↦
      let (q, last) =
        get_elem?_inside bc.hashes (length bc.hashes - 1) (omega (arith, v.started)) in
      elim (Bool-cases (bytes_eq q b.prev_hash)) [
        | inl same ↦ inl (inl (last ∙ ap some ((bytes_eq_iff q b.prev_hash).0 same)))
        | inr other ↦ inr λ a. elim a [
          | inl last' ↦ bytes_ne q b.prev_hash other (cc (last, last'))
          | inr (f, _) ↦ cc (e, f)
        ]
      ]
]

IsNew-or_not :
    (bc : BlockChain) (b : BlockHeader) → b.block_number ≡ none → IsNew bc b ⊎ ¬ (IsNew bc b)
IsNew-or_not bc b unset = elim (Bool-cases (is_empty b.hash)) [
  | inl p ↦ inr (λ new. cc (p, new.named))
  | inr named ↦ elim (Option-cases (find b.hash bc.blocks)) [
    | inr (h, p) ↦ inr (λ new. cc (p, new.fresh))
    | inl fresh ↦ elim (Bool-cases (is_empty b.prev_hash)) [
      | inl p ↦ inr (λ new. cc (p, new.parented))
      | inr parented ↦
          inl (record { named = named; fresh = fresh; unset = unset; parented = parented })
    ]
  ]
]

by_number :
    (bc : BlockChain) (i : ℕ) {k : Bytes} {h : BlockHeader}
    → get_elem? bc.hashes i ≡ some k
    → find k bc.blocks ≡ some h
    → get_block_by_number bc i ≡ h
unfolding get_block_by_number
by_number bc i e f = rw (e, f)

module _ (bc : BlockChain) (b : BlockHeader) where
  number_extended :
      get_block_by_number (extended bc b) (length bc.hashes) ≡ with_number b (length bc.hashes)
  number_extended =
      by_number (extended bc b) (length bc.hashes)
        (get_elem?-append bc.hashes b.hash [] (length bc.hashes) refl)
        (find-assign_self b.hash (with_number b (length bc.hashes)) bc.blocks)

  count_extended : length bc.hashes < 2 ^ 64 → count_blocks (extended bc b) ≡ length bc.hashes
  unfolding count_blocks
  count_extended short = omega (arith, length-append bc.hashes (b.hash ∷ []))

  last_extended :
      length bc.hashes < 2 ^ 64
      → get_last_block (extended bc b) ≡ get_block_by_number (extended bc b) (length bc.hashes)
  unfolding get_last_block
  last_extended short = ap (get_block_by_number (extended bc b)) (count_extended short)

  hash_extended :
      is_empty b.hash ≡ false
      → get_block (extended bc b) b.hash ≡ ok (with_number b (length bc.hashes))
  unfolding get_block
  hash_extended named =
      rw (named, find-assign_self b.hash (with_number b (length bc.hashes)) bc.blocks)

module _ (bc : BlockChain) (b : BlockHeader) (v : IsIndexed bc) (short : length bc.hashes < 2 ^ 64)
    (unset : b.block_number ≡ none) where
  -- On a consistently numbered chain of fewer than 2 ^ 64 blocks, `addBlock` of a block without a
  -- number returns the number of the new last block and the chain extended by it, where the block
  -- is new and acceptable, or throws and leaves the chain as it was.
  pub add_block_cases :
      (IsNew bc b
        × IsAcceptable bc b
        × (add_block bc b ≡ returned (length bc.hashes) (extended bc b)))
      ⊎ ((e : Error) × (add_block bc b ≡ thrown e bc))
  add_block_cases = elim (IsNew-or_not bc b unset) [
    | inr old ↦ inr (add_block_refuses bc b v short unset (λ both. old both.0))
    | inl new ↦ elim (IsAcceptable-or_not bc b v) [
      | inl good ↦ inl (new, good, add_block_accepts bc b v short new good)
      | inr bad ↦ inr (add_block_refuses bc b v short unset (λ both. bad both.1))
    ]
  ]

  pub returned_extended :
      {n : ℕ} {bc' : BlockChain}
      → add_block bc b ≡ returned n bc'
      → IsNew bc b × IsAcceptable bc b × (n ≡ length bc.hashes) × (bc' ≡ extended bc b)
  returned_extended e = elim add_block_cases [
    | inl (new, good, f) ↦ (new, good, cc (e, f), cc (e, f))
    | inr (x, f) ↦ absurd (cc (e, f))
  ]

  -- When `addBlock` of a block without a number returns `n`, on a consistently numbered chain of
  -- fewer than 2 ^ 64 blocks, that is the new count of blocks, the last block is the one that was
  -- given, numbered `n`, the getters by hash and by number find it, and the earlier numbers still
  -- lead to the earlier blocks.
  pub add_block_getters :
      (n i : ℕ) (bc' : BlockChain)
      → add_block bc b ≡ returned n bc'
      → i < n
      → (count_blocks bc' ≡ n)
        × (get_last_block bc' ≡ with_number b n)
        × (get_block bc' b.hash ≡ ok (with_number b n))
        × (get_block_by_number bc' n ≡ with_number b n)
        × (get_block_by_number bc' i ≡ get_block_by_number bc i)
  add_block_getters n i bc' e l =
      let (new, _, p, q) = returned_extended e in
      let (k, at) = get_elem?_inside bc.hashes i (omega (arith, p)) in
      let (h, f, _) = v.filled i k at in
      rw (p, q)
        (
          count_extended bc b short,
          last_extended bc b short ∙ number_extended bc b,
          hash_extended bc b new.named,
          number_extended bc b,
          by_number (extended bc b) i (get_elem?-append_left bc.hashes (b.hash ∷ []) i at) (
                find-assign_ne b.hash k (with_number b (length bc.hashes)) bc.blocks
                  (other_hash b.hash k bc.blocks new.fresh f)
                ∙ f)
              ∙ sym (by_number bc i at f),
        )

-- The state that a call leaves.
abbrev pub state_after {ℓ} : {A : Type ℓ} → BlockChain → Exit A → BlockChain
state_after bc (returned a bc') = bc'
state_after bc (thrown e bc') = bc'
state_after bc dangling = bc
state_after bc unfinished = bc

pub add_blocks : BlockChain → List BlockHeader → BlockChain
add_blocks bc [] = bc
add_blocks bc (b ∷ bs) = add_blocks (state_after bc (add_block bc b)) bs

abbrev pub IsUnset : BlockHeader → Type 0
IsUnset b = b.block_number ≡ none

step-IsIndexed :
    (bc : BlockChain) (b : BlockHeader)
    → IsIndexed bc
    → length bc.hashes < 2 ^ 64
    → IsUnset b
    → IsIndexed (state_after bc (add_block bc b))
      × (length (state_after bc (add_block bc b)).hashes ≤ suc (length bc.hashes))
step-IsIndexed bc b v short unset = elim (add_block_cases bc b v short unset) [
  | inl (new, _, e) ↦
      rw e
        (extended-IsIndexed bc b v new.fresh, omega (arith, length-append bc.hashes (b.hash ∷ [])))
  | inr (x, e) ↦ rw e (v, omega arith)
]

-- From a chain whose map and list of hashes number the same blocks, one to each number from 0 on,
-- any calls of `addBlock` with blocks that have no number, be they accepted or refused, lead to
-- such a chain, if the blocks of both are fewer than 2 ^ 64.
pub add_blocks-IsIndexed :
    (bc : BlockChain) (bs : List BlockHeader)
    → IsIndexed bc
    → All IsUnset bs
    → length bc.hashes + length bs < 2 ^ 64
    → IsIndexed (add_blocks bc bs)
unfolding add_blocks
add_blocks-IsIndexed bc [] v u l = v
add_blocks-IsIndexed bc (b ∷ bs) v (u, us) l =
    let (w, m) = step-IsIndexed bc b v (omega arith) u in
    add_blocks-IsIndexed (state_after bc (add_block bc b)) bs w us (omega arith)
