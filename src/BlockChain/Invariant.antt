-- ===== src/BlockChain/Invariant.antt =====
-- The numbering of the chain of src/BlockChain.cpp as `addBlock` keeps it.
use node_infrastructure_torr.Prelude.{
  ℕ, ◌<◌, ◌≡◌, refl, ap, inl, inr, arith, false, Bytes, [], ◌∷◌, ◌++◌, none, some, length,
  get_elem?, get_elem?-append_left, get_elem?-append, get_elem?-snoc, bytes_eq, bytes_eq_iff, Map,
  find, assign, find-assign_self, find-assign_ne, find-assign_cases, sym, ◌∙◌, Bool-cases,
  length-append,
}
use node_infrastructure_torr.BlockInfo.Records.{BlockHeader}
use node_infrastructure_torr.BlockChain.{
  BlockChain, initialize, with_number, genesis_block_hash, new_header,
}

-- Every block of the map has a number and is at its place in `hashes`, under its own hash; and every
-- place of `hashes` leads to the block with that number.
pub record IsIndexed (bc : BlockChain) : Type 0 where
  pub started : 0 < length bc.hashes
  pub placed :
      (k : Bytes) (h : BlockHeader)
      → find k bc.blocks ≡ some h
      → (n : ℕ) × (h.block_number ≡ some n) × (get_elem? bc.hashes n ≡ some k) × (h.hash ≡ k)
  pub filled :
      (i : ℕ) (k : Bytes)
      → get_elem? bc.hashes i ≡ some k
      → (h : BlockHeader) × (find k bc.blocks ≡ some h) × (h.block_number ≡ some i)

abbrev genesis : BlockHeader
genesis = record new_header { hash = genesis_block_hash; block_number = some 0 }

genesis_found :
    (k : Bytes) {h : BlockHeader}
    → find k initialize.blocks ≡ some h
    → find k (assign genesis_block_hash genesis []) ≡ some h
unfolding initialize assign
genesis_found k e = e

pub other_hash {ℓ} :
    {V : Type ℓ} (j k : Bytes) {h : V} (m : Map V)
    → find j m ≡ none
    → find k m ≡ some h
    → bytes_eq j k ≡ false
other_hash j k m e f = elim (Bool-cases (bytes_eq j k)) [
  | inl same ↦ absurd (cc (e, f, ap (λ (i : Bytes). find i m) ((bytes_eq_iff j k).0 same)))
  | inr other ↦ other
]

pub initialize-IsIndexed : IsIndexed initialize
unfolding initialize find bytes_eq assign
initialize-IsIndexed = record {
  started = omega arith;
  placed = λ k h e. elim (find-assign_cases genesis_block_hash k genesis [] (genesis_found k e)) [
    | inl (p, q) ↦ (
      0,
      ap (λ (g : BlockHeader). g.block_number) (sym q),
      ap some p,
      ap (λ (g : BlockHeader). g.hash) (sym q) ∙ p,
    )
    | inr (p, q) ↦ absurd (cc q)
  ];
  filled = λ i k e. elim (get_elem?-snoc [] genesis_block_hash i e) [
    | inl (p, q) ↦ (genesis, rw q (find-assign_self genesis_block_hash genesis []), ap some (sym p))
    | inr p ↦ absurd (cc p)
  ];
}

-- The chain with one more block.
abbrev pub extended : BlockChain → BlockHeader → BlockChain
extended bc b = record {
  blocks = assign b.hash (with_number b (length bc.hashes)) bc.blocks;
  hashes = bc.hashes ++ (b.hash ∷ []);
}

pub extended-IsIndexed :
    (bc : BlockChain) (b : BlockHeader)
    → IsIndexed bc
    → find b.hash bc.blocks ≡ none
    → IsIndexed (extended bc b)
extended-IsIndexed bc b v fresh = record {
  started = omega (arith, length-append bc.hashes (b.hash ∷ []));
  placed = λ k h e.
      elim (find-assign_cases b.hash k (with_number b (length bc.hashes)) bc.blocks e) [
        | inl (p, q) ↦ (
          length bc.hashes,
          ap (λ (g : BlockHeader). g.block_number) (sym q),
          get_elem?-append bc.hashes b.hash [] (length bc.hashes) refl ∙ ap some p,
          ap (λ (g : BlockHeader). g.hash) (sym q) ∙ p,
        )
        | inr (_, q) ↦
            let (n, z, at, name) = v.placed k h q in
            (n, z, get_elem?-append_left bc.hashes (b.hash ∷ []) n at, name)
      ];
  filled = λ i k e. elim (get_elem?-snoc bc.hashes b.hash i e) [
    | inl (p, q) ↦ (
      with_number b (length bc.hashes),
      rw q (find-assign_self b.hash (with_number b (length bc.hashes)) bc.blocks),
      ap some (sym p),
    )
    | inr p ↦
        let (h, f, z) = v.filled i k p in
        (h, find-assign_ne b.hash k _ bc.blocks (other_hash b.hash k bc.blocks fresh f) ∙ f, z)
  ];
}
