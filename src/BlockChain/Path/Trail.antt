-- ===== src/BlockChain/Path/Trail.antt =====
-- `calcBlockchain` of src/BlockChain.cpp on a whole path of blocks without numbers, as the start of
-- the node runs it on the blocks of the database.
use node_infrastructure_torr.Prelude.{
  ℕ, zero, suc, ◌+◌, ◌%◌, ◌^◌, ◌<◌, ◌≡◌, refl, ap, ◌∙◌, arith, false, Bytes, List, [], ◌∷◌, ◌++◌,
  none, some, length, is_empty, bytes_eq, Map, find, assign, find-assign_self, find-assign_ne, All,
}
use node_infrastructure_torr.BlockInfo.Records.{BlockHeader}
use node_infrastructure_torr.BlockChain.{
  BlockChain, returned, with_number, stopped, walk, renumber, after_walk, calc_blockchain,
}
use node_infrastructure_torr.BlockChain.Walk.{
  walk_stops, walk_goes_on, after_walk_stopped, calc_blockchain_walks,
}
use node_infrastructure_torr.BlockChain.Ends.{unnumbered, unnumbered-le-length, unnumbered-assign}
use node_infrastructure_torr.BlockChain.Path.{
  IsOther, IsOther-sym, AreDistinct, AreCounted, AreCounted-assign, AreNumbered,
  renumber-IsRenumbered,
}

-- The first of a path, or the block that it leads to.
abbrev pub head_or : Bytes → List Bytes → Bytes
head_or t [] = t
head_or t (k ∷ ks) = k

-- The path of `ks`, the latest block first, leads by the hashes of the parents to `t`, over blocks
-- that have no number.
abbrev pub IsTrail : Map BlockHeader → Bytes → List Bytes → Type 0
IsTrail blocks t [] = Unit
IsTrail blocks t (k ∷ ks) =
    ((h : BlockHeader) × (find k blocks ≡ some h)
      × (h.block_number ≡ none)
      × (h.hash ≡ k)
      × (is_empty h.prev_hash ≡ false)
      × (h.prev_hash ≡ head_or t ks))
    × IsTrail blocks t ks

IsTrail-assign :
    (k : Bytes) (h : BlockHeader) (n : ℕ) (blocks : Map BlockHeader) (t : Bytes) (ks : List Bytes)
    → All (IsOther k) ks
    → IsTrail blocks t ks
    → IsTrail (assign k (with_number h n) blocks) t ks
IsTrail-assign k h n blocks t [] o p = tt
IsTrail-assign k h n blocks t (j ∷ ks) (o, os) ((g, e, z, same, named, prev), p) = (
  (g, find-assign_ne k j (with_number h n) blocks o ∙ e, z, same, named, prev),
  IsTrail-assign k h n blocks t ks os p,
)

trail_head :
    (blocks : Map BlockHeader) (t : Bytes) (ks : List Bytes) {g : BlockHeader}
    → find t blocks ≡ some g
    → IsTrail blocks t ks
    → (p : BlockHeader) × (find (head_or t ks) blocks ≡ some p)
trail_head blocks t [] {g} e p = (g, e)
trail_head blocks t (k ∷ ks) e ((h, f, _, _, _, _), p) = (h, f)

-- The blocks of the path in the order of the chain, before those of `done`.
abbrev pub back_onto : List Bytes → List Bytes → List Bytes
back_onto [] done = done
back_onto (k ∷ ks) done = back_onto ks (k ∷ done)

length-back_onto : (ks done : List Bytes) → length (back_onto ks done) ≡ length ks + length done
length-back_onto [] done = omega arith
length-back_onto (k ∷ ks) done = omega (arith, length-back_onto ks (k ∷ done))

abbrev IsPassed :
    Bytes → BlockHeader → List Bytes → ℕ → Bytes → List Bytes → Map BlockHeader → Type 0
IsPassed t g passed fuel bh processed blocks =
    (blocks' : Map BlockHeader) × (walk fuel bh (length processed) processed blocks
      ≡ stopped t (length passed) passed blocks')
    × (find t blocks' ≡ some g)
    × AreCounted blocks' passed
    × AreDistinct passed

module _ (t : Bytes) (g : BlockHeader) (n : ℕ) (numbered : g.block_number ≡ some n) where
  walk-IsPassed :
      (ks : List Bytes) (fuel : ℕ) (processed : List Bytes) (blocks : Map BlockHeader)
      → unnumbered blocks < fuel
      → find t blocks ≡ some g
      → IsTrail blocks t ks
      → AreDistinct ks
      → All (λ k. IsOther k t) ks
      → All (λ k. All (IsOther k) processed) ks
      → AreCounted blocks processed
      → AreDistinct processed
      → length processed + length ks < 2 ^ 64
      → IsPassed t g (back_onto ks processed) fuel (head_or t ks) processed blocks
  walk-IsPassed ks zero processed blocks u e p d o q c r l = absurd (omega arith)
  walk-IsPassed [] (suc fuel) processed blocks u e p d o q c r l =
      (blocks, walk_stops fuel t (length processed) processed blocks e numbered, e, c, r)
  walk-IsPassed (k ∷ ks) (suc fuel) processed blocks u e ((h, here, z, same, parented, prev), p)
        (d, ds) (o, os) (q, qs) c r l =
      let (b, w, e', c', r') =
        walk-IsPassed ks fuel (k ∷ processed) next
          (omega (arith, u, unnumbered-assign k h (length processed) blocks here z)) kept trail ds
          os (others ks d qs)
          (counted, AreCounted-assign k h (length processed) blocks processed q c) (q, r)
          (omega arith) in
      let (parent, found) = trail_head next t ks kept trail in
      (
        b,
        walk_goes_on fuel k (length processed) processed blocks here z parented
              (ap (λ (j : Bytes). find j next) prev ∙ found)
            ∙ ap (λ (j : Bytes). walk fuel j ((length processed + 1) % 2 ^ 64) (k ∷ processed) next)
                prev
            ∙ ap (λ (m : ℕ). walk fuel (head_or t ks) m (k ∷ processed) next) (omega arith)
            ∙ w,
        e',
        c',
        r',
      )
    where
      next : Map BlockHeader
      next = assign k (with_number h (length processed)) blocks

      kept : find t next ≡ some g
      kept = find-assign_ne k t (with_number h (length processed)) blocks o ∙ e

      trail : IsTrail next t ks
      trail = IsTrail-assign k h (length processed) blocks t ks d p

      counted :
          (x : BlockHeader) × (find k next ≡ some x)
          × (x.block_number ≡ some (length processed))
          × (x.hash ≡ k)
      counted = (
        with_number h (length processed),
        find-assign_self k (with_number h (length processed)) blocks,
        refl,
        same,
      )

      others :
          (js : List Bytes)
          → All (IsOther k) js
          → All (λ j. All (IsOther j) processed) js
          → All (λ j. All (IsOther j) (k ∷ processed)) js
      others [] a b = tt
      others (j ∷ js) (x, a) (y, b) = ((IsOther-sym k j x, y), others js a b)

-- Run on the latest block of a path of distinct blocks without numbers that leads by the hashes of
-- the parents to the last block of the chain, a block with a number, `calcBlockchain` returns the
-- number of the latest block, appends the hashes of the path to those of the chain, and numbers the
-- blocks of the path one after the other, if the blocks of both are fewer than 2 ^ 64.
pub calc_blockchain_path :
    (bc : BlockChain) (t k : Bytes) (g : BlockHeader) (n : ℕ) (ks : List Bytes)
    → find t bc.blocks ≡ some g
    → g.block_number ≡ some n
    → suc n ≡ length bc.hashes
    → is_empty k ≡ false
    → IsTrail bc.blocks t (k ∷ ks)
    → AreDistinct (k ∷ ks)
    → All (λ j. bytes_eq j t ≡ false) (k ∷ ks)
    → length bc.hashes + length (k ∷ ks) < 2 ^ 64
    → (bc' : BlockChain) × (calc_blockchain bc k ≡ returned (n + length (k ∷ ks)) bc')
      × (bc'.hashes ≡ bc.hashes ++ back_onto (k ∷ ks) [])
      × AreNumbered bc'.blocks (length bc.hashes) (back_onto (k ∷ ks) [])
calc_blockchain_path bc t k g n ks e z last named p d o l =
    let path = back_onto (k ∷ ks) [] in
    let (blocks, w, f, c, distinct) =
      walk-IsPassed t g n z (k ∷ ks) (suc (length bc.blocks)) [] bc.blocks
        (omega (arith, unnumbered-le-length bc.blocks)) e p d o (nothing (k ∷ ks)) tt tt
        (omega arith) in
    let (bc', (r, hs, ns, _)) =
      renumber-IsRenumbered (n + length (k ∷ ks)) path
        (record { blocks = blocks; hashes = bc.hashes }) distinct c
        (omega (arith, last, length-back_onto (k ∷ ks) [])) (omega (arith, last, l)) in
    (
      bc',
      calc_blockchain_walks bc k named p.0.1
          ∙ ap (after_walk bc.hashes) w
          ∙ after_walk_stopped bc.hashes t (length path) path blocks f z
          ∙ ap (λ (m : ℕ). renumber m path (record { blocks = blocks; hashes = bc.hashes }))
              (omega (arith, last, l, length-back_onto (k ∷ ks) []))
          ∙ r,
      hs,
      ns,
    )
  where
    nothing : (js : List Bytes) → All (λ j. All (IsOther j) []) js
    nothing [] = tt
    nothing (j ∷ js) = (tt, nothing js)
