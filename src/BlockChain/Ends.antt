-- ===== src/BlockChain/Ends.antt =====
-- `calcBlockchain` ends: its loop numbers a new block in each round, and holds no dead reference.
use node_infrastructure_torr.Prelude.{
  ℕ, zero, suc, ◌+◌, ◌%◌, ◌^◌, ◌≤◌, ◌<◌, ◌≡◌, ◌≢◌, refl, ◌⊎◌, inl, inr, arith, Bytes, List, [], ◌∷◌,
  none, some, length, All, is_empty, bytes_eq, bytes_eq_iff, Map, find, assign, find-assign, Error,
  Bool-cases, Option-cases, ◌-◌, ◌==◌, ==_iff, ups,
}
use node_infrastructure_torr.BlockInfo.Records.{BlockHeader}
use node_infrastructure_torr.BlockChain.{
  BlockChain, Exit, returned, thrown, with_number, WalkEnd, stopped, refused, lost, out_of_fuel,
  walk, renumber, after_walk, calc_blockchain,
}
use node_infrastructure_torr.BlockChain.Walk.{
  walk_stops, walk_refuses, walk_breaks, walk_goes_on, renumber_goes_on, renumber_throws,
  after_walk_stopped, calc_blockchain_walks,
}

-- The entries with no number.
pub unnumbered : Map BlockHeader → ℕ
unnumbered [] = 0
unnumbered ((k, h) ∷ m) = elim h.block_number [ none ↦ suc (unnumbered m) | some n ↦ unnumbered m ]

pub unnumbered-le-length : (m : Map BlockHeader) → unnumbered m ≤ length m
unfolding unnumbered
unnumbered-le-length [] = omega arith
unnumbered-le-length ((k, h) ∷ m) = ground (arith, unnumbered-le-length m)

pub unnumbered-assign :
    (k : Bytes) (h : BlockHeader) (n : ℕ) (m : Map BlockHeader)
    → find k m ≡ some h
    → h.block_number ≡ none
    → suc (unnumbered (assign k (with_number h n) m)) ≡ unnumbered m
unfolding unnumbered find assign
unnumbered-assign k h n [] e z = ground arith
unnumbered-assign k h n ((j, g) ∷ m) e z = ground (arith, unnumbered-assign k h n m)

-- The key has an entry with a number.
abbrev pub IsNumbered : Map BlockHeader → Bytes → Type 0
IsNumbered m k = (h : BlockHeader) × (n : ℕ) × (find k m ≡ some h) × (h.block_number ≡ some n)

IsNumbered-assign :
    (k : Bytes) (h : BlockHeader) (n : ℕ) (m : Map BlockHeader) (j : Bytes)
    → IsNumbered m j
    → IsNumbered (assign k (with_number h n) m) j
IsNumbered-assign k h n m j (g, v, e, z) = elim (Bool-cases (bytes_eq k j)) [
  | inl same ↦ (with_number h n, n, rw (find-assign k j (with_number h n) m, same), refl)
  | inr other ↦ (g, v, rw (find-assign k j (with_number h n) m, other) e, z)
]

IsNumbered-assign_self :
    (k : Bytes) (h : BlockHeader) (n : ℕ) (m : Map BlockHeader)
    → IsNumbered (assign k (with_number h n) m) k
IsNumbered-assign_self k h n m =
    (with_number h n, n, rw (find-assign k k (with_number h n) m, (bytes_eq_iff k k).1 refl), refl)

All-assign :
    (k : Bytes) (h : BlockHeader) (n : ℕ) (m : Map BlockHeader) (ks : List Bytes)
    → All (IsNumbered m) ks
    → All (IsNumbered (assign k (with_number h n) m)) ks
All-assign k h n m [] a = a
All-assign k h n m (j ∷ ks) (i, a) = (IsNumbered-assign k h n m j i, All-assign k h n m ks a)

-- The loop stops at a block that has a number, and so have the blocks that it has processed.
abbrev IsWalked : WalkEnd → Type 0
IsWalked (stopped bh curr_num processed blocks) =
    IsNumbered blocks bh × All (IsNumbered blocks) processed
IsWalked (refused e blocks) = Unit
IsWalked lost = ⊥
IsWalked out_of_fuel = ⊥

walk-IsWalked :
    (fuel : ℕ) (bh : Bytes) (curr_num : ℕ) (processed : List Bytes) (blocks : Map BlockHeader)
    → unnumbered blocks < fuel
    → find bh blocks ≢ none
    → All (IsNumbered blocks) processed
    → IsWalked (walk fuel bh curr_num processed blocks)
unfolding walk
walk-IsWalked zero bh curr_num processed blocks f e a = absurd (omega arith)
walk-IsWalked (suc fuel) bh curr_num processed blocks f e a = elim (Option-cases (find bh blocks)) [
  | inl missing ↦ absurd (e missing)
  | inr (h, here) ↦ elim (Option-cases h.block_number) [
    | inr (n, z) ↦ rw (walk_stops fuel bh curr_num processed blocks here z) ((h, n, here, z), a)
    | inl z ↦ elim (Bool-cases (is_empty h.prev_hash)) [
      | inl p ↦ rw (walk_refuses fuel bh curr_num processed blocks here z p) tt
      | inr p ↦
          let self = IsNumbered-assign_self bh h curr_num blocks in
          let all = All-assign bh h curr_num blocks processed a in
          elim (Option-cases (find h.prev_hash (assign bh (with_number h curr_num) blocks))) [
            | inl q ↦
                rw (walk_breaks fuel bh curr_num processed blocks here z p q) (self, (self, all))
            | inr (g, q) ↦ rw (walk_goes_on fuel bh curr_num processed blocks here z p q) (
                walk-IsWalked fuel h.prev_hash ((curr_num + 1) % 2 ^ 64) (bh ∷ processed)
                  (assign bh (with_number h curr_num) blocks)
                  (omega (arith, unnumbered-assign bh h curr_num blocks here z)) (λ n. cc q)
                  (self, all))
          ]
    ]
  ]
]

-- The method returns or throws.
abbrev pub Ended {ℓ} : {A : Type ℓ} → Exit A → Type ℓ
Ended {A} x =
    ((a : A) × (bc : BlockChain) × (x ≡ returned a bc))
    ⊎ ((e : Error) × (bc : BlockChain) × (x ≡ thrown e bc))

renumber-Ended :
    (all_num : ℕ) (ks : List Bytes) (bc : BlockChain)
    → All (IsNumbered bc.blocks) ks
    → Ended (renumber all_num ks bc)
unfolding renumber
renumber-Ended all_num [] bc a = inl (all_num, bc, refl)
renumber-Ended all_num (k ∷ ks) bc ((h, v, here, z), a) =
    let number : ℕ = (all_num + 2 ^ 64 - v) % 2 ^ 64 in
    elim (Bool-cases (number == length bc.hashes)) [
      | inl e ↦
          rw (renumber_goes_on all_num k ks bc here z number refl ((==_iff number _).0 e))
            (renumber-Ended all_num ks _ (All-assign k h number bc.blocks ks a))
      | inr e ↦ rw (renumber_throws all_num k ks bc here z number refl e) (inr (ups, _, refl))
    ]

after_walk-Ended : (hashes : List Bytes) (w : WalkEnd) → IsWalked w → Ended (after_walk hashes w)
unfolding after_walk
after_walk-Ended hashes (stopped bh c p blocks) ((h, n, here, z), a) =
    rw (after_walk_stopped hashes bh c p blocks here z) (renumber-Ended ((c + n) % 2 ^ 64) p _ a)
after_walk-Ended hashes (refused e blocks) w = inr (e, _, refl)
after_walk-Ended hashes lost w = absurd w
after_walk-Ended hashes out_of_fuel w = absurd w

-- On every state and hash `calcBlockchain` returns or throws: its loop ends, also where the blocks
-- refer to one another in a circle, and it holds no reference to a missing block.
pub calc_blockchain-Ended :
    (bc : BlockChain) (last_hash : Bytes) → Ended (calc_blockchain bc last_hash)
unfolding calc_blockchain
calc_blockchain-Ended bc last_hash = elim (Bool-cases (is_empty last_hash)) [
  | inl e ↦ rw e (inr (_, bc, refl))
  | inr e ↦ elim (Option-cases (find last_hash bc.blocks)) [
    | inl m ↦ rw (e, m) (inr (_, bc, refl))
    | inr (h, m) ↦ rw (calc_blockchain_walks bc last_hash e m) (
        after_walk-Ended bc.hashes _ (
          walk-IsWalked (suc (length bc.blocks)) last_hash 0 [] bc.blocks
            (omega (arith, unnumbered-le-length bc.blocks)) (λ n. cc m) tt))
  ]
]
