-- ===== src/BlockChain/Path.antt =====
-- The second loop of `calcBlockchain` of src/BlockChain.cpp, on a whole path of blocks.
pub mod Trail
use node_infrastructure_torr.Prelude.{
  ℕ, zero, suc, ◌+◌, ◌-◌, ◌%◌, ◌^◌, ◌<◌, ◌≤◌, ◌≡◌, refl, sym, ap, ◌∙◌, arith, false, true, Bytes,
  List, [], ◌∷◌, ◌++◌, append_assoc, append-nil, none, some, length, length-append, is_empty,
  bytes_eq, bytes_eq_iff, Bool-cases, inl, inr, Map, find, assign, find-assign_self, find-assign_ne,
  All, All-map,
}
use node_infrastructure_torr.BlockInfo.Records.{BlockHeader}
use node_infrastructure_torr.BlockChain.{
  BlockChain, returned, with_number, stopped, walk, renumber, after_walk, calc_blockchain,
}
use node_infrastructure_torr.BlockChain.Walk.{
  walk_stops, walk_goes_on, renumber_goes_on, after_walk_stopped, calc_blockchain_walks,
}
use node_infrastructure_torr.BlockChain.Ends.{unnumbered, unnumbered-le-length, unnumbered-assign}

abbrev pub IsOther : Bytes → Bytes → Type 0
IsOther j k = bytes_eq j k ≡ false

pub IsOther-sym : (j k : Bytes) → IsOther j k → IsOther k j
IsOther-sym j k h = elim (Bool-cases (bytes_eq k j)) [
  | inr other ↦ other
  | inl same ↦ absurd (cc (h, (bytes_eq_iff j k).1 (sym ((bytes_eq_iff k j).0 same))))
]

abbrev pub AreDistinct : List Bytes → Type 0
AreDistinct [] = Unit
AreDistinct (k ∷ ks) = All (IsOther k) ks × AreDistinct ks

-- The blocks that the loop has passed, the last one first: each has the number of those behind it.
abbrev pub AreCounted : Map BlockHeader → List Bytes → Type 0
AreCounted blocks [] = Unit
AreCounted blocks (k ∷ ks) =
    ((h : BlockHeader) × (find k blocks ≡ some h)
      × (h.block_number ≡ some (length ks))
      × (h.hash ≡ k))
    × AreCounted blocks ks

pub AreCounted-assign :
    (k : Bytes) (h : BlockHeader) (n : ℕ) (blocks : Map BlockHeader) (ks : List Bytes)
    → All (IsOther k) ks
    → AreCounted blocks ks
    → AreCounted (assign k (with_number h n) blocks) ks
AreCounted-assign k h n blocks [] o c = tt
AreCounted-assign k h n blocks (j ∷ ks) (o, os) ((g, e, z, same), c) = (
  (g, find-assign_ne k j (with_number h n) blocks o ∙ e, z, same),
  AreCounted-assign k h n blocks ks os c,
)

-- The blocks are numbered one after the other, from `n` on.
abbrev pub AreNumbered : Map BlockHeader → ℕ → List Bytes → Type 0
AreNumbered blocks n [] = Unit
AreNumbered blocks n (k ∷ ks) =
    ((h : BlockHeader) × (find k blocks ≡ some h) × (h.block_number ≡ some n))
    × AreNumbered blocks (suc n) ks

-- `blocks'` differs from `blocks` at the keys `ks` at most.
abbrev pub AgreesBeside : List Bytes → Map BlockHeader → Map BlockHeader → Type 0
AgreesBeside ks blocks blocks' =
    (j : Bytes) → All (λ k. IsOther k j) ks → find j blocks' ≡ find j blocks

abbrev pub IsRenumbered : ℕ → List Bytes → BlockChain → BlockChain → Type 0
IsRenumbered all_num ks bc bc' =
    (renumber all_num ks bc ≡ returned all_num bc')
    × (bc'.hashes ≡ bc.hashes ++ ks)
    × AreNumbered bc'.blocks (length bc.hashes) ks
    × AgreesBeside ks bc.blocks bc'.blocks

pub renumber-IsRenumbered :
    (all_num : ℕ) (ks : List Bytes) (bc : BlockChain)
    → AreDistinct ks
    → AreCounted bc.blocks ks
    → all_num + 1 ≡ length bc.hashes + length ks
    → all_num < 2 ^ 64
    → (bc' : BlockChain) × IsRenumbered all_num ks bc bc'
unfolding renumber
renumber-IsRenumbered all_num [] bc d c e l =
    (bc, (refl, sym (append-nil bc.hashes), tt, λ j o. refl))
renumber-IsRenumbered all_num (k ∷ ks) bc (o, d) ((h, here, z, same), c) e l =
    let (bc', (f, hs, ns, rest)) =
      renumber-IsRenumbered all_num ks next d
        (AreCounted-assign k h (length bc.hashes) bc.blocks ks o c)
        (omega (arith, e, length-append bc.hashes (h.hash ∷ []))) l in
    (
      bc',
      (
        renumber_goes_on all_num k ks bc here z (length bc.hashes) (omega (arith, e)) refl ∙ f,
        hs
            ∙ append_assoc bc.hashes (h.hash ∷ []) ks
            ∙ ap (λ (j : Bytes). bc.hashes ++ (j ∷ ks)) same,
        (
          (
            with_number h (length bc.hashes),
            rest k (All-map ks (λ j p. IsOther-sym k j p) o)
                ∙ find-assign_self k (with_number h (length bc.hashes)) bc.blocks,
            refl,
          ),
          shifted bc'.blocks ns,
        ),
        λ j p. rest j p.1 ∙ find-assign_ne k j (with_number h (length bc.hashes)) bc.blocks p.0,
      ),
    )
  where
    next : BlockChain
    next = record {
      blocks = assign k (with_number h (length bc.hashes)) bc.blocks;
      hashes = bc.hashes ++ (h.hash ∷ []);
    }

    plus_one : length bc.hashes + 1 ≡ suc (length bc.hashes)
    plus_one = omega arith

    shifted :
        (blocks : Map BlockHeader)
        → AreNumbered blocks (length (bc.hashes ++ (h.hash ∷ []))) ks
        → AreNumbered blocks (suc (length bc.hashes)) ks
    shifted blocks a = rw (length-append bc.hashes (h.hash ∷ []) ∙ plus_one) at a
