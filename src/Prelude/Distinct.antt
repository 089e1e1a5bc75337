-- ===== src/Prelude/Distinct.antt =====
-- Maps that have each key once, as every map of the program has: their sizes.
use Prim.Native.Nat.{suc}
use node_infrastructure_torr.Prelude.Lists.{length}
use mathlib.Core.Path.{◌≡◌, refl, ap, subst}
use mathlib.Core.Option.{none, some}
use mathlib.Core.Logic.{inl, inr}
use mathlib.Core.List.{[], ◌∷◌}
use native.Mathlib.Omega.{arith}
use node_infrastructure_torr.Prelude.Tests.{Bool-cases}
use node_infrastructure_torr.Prelude.Strings.{Bytes, bytes_eq, bytes_eq_iff}
use node_infrastructure_torr.Prelude.Maps.{
  Map, find, assign, erase, find-assign, find-erase, erase-absent,
}

module _ {ℓ} {V : Type ℓ} where
  abbrev pub IsDistinct : Map V → Type ℓ
  IsDistinct [] = Unit
  IsDistinct ((k, v) ∷ m) = (find k m ≡ none) × IsDistinct m

  pub assign-IsDistinct : (k : Bytes) (v : V) (m : Map V) → IsDistinct m → IsDistinct (assign k v m)
  unfolding assign find
  assign-IsDistinct k v [] d = (refl, tt)
  assign-IsDistinct k v ((j, w) ∷ m) (n, d) = elim (Bool-cases (bytes_eq j k)) [
    | inl e ↦ rw e (n, d)
    | inr e ↦ rw e (
      ground (arith, find-assign k j v m, bytes_eq_iff j k, bytes_eq_iff k j),
      assign-IsDistinct k v m d,
    )
  ]

  pub erase-IsDistinct : (k : Bytes) (m : Map V) → IsDistinct m → IsDistinct (erase k m)
  unfolding erase
  erase-IsDistinct k [] d = tt
  erase-IsDistinct k ((j, w) ∷ m) (n, d) = elim (Bool-cases (bytes_eq j k)) [
    | inl e ↦ rw e (erase-IsDistinct k m d)
    | inr e ↦ rw e (ground (arith, find-erase k j m), erase-IsDistinct k m d)
  ]

  pub length-assign_new :
      (k : Bytes) (v : V) (m : Map V) → find k m ≡ none → length (assign k v m) ≡ suc (length m)
  unfolding assign find
  length-assign_new k v [] h = refl
  length-assign_new k v ((j, w) ∷ m) h = ground (arith, length-assign_new k v m)

  pub length-assign_old :
      (k : Bytes) (v : V) (m : Map V) {w : V} → find k m ≡ some w → length (assign k v m) ≡ length m
  unfolding assign find
  length-assign_old k v [] h = absurd (cc h)
  length-assign_old k v ((j, x) ∷ m) {w = w} h = elim (Bool-cases (bytes_eq j k)) [
    | inl e ↦ rw e refl
    | inr e ↦ rw e (ap suc (length-assign_old k v m (rw e at h)))
  ]

  pub length-erase :
      (k : Bytes) (m : Map V) {w : V}
      → IsDistinct m
      → find k m ≡ some w
      → length m ≡ suc (length (erase k m))
  unfolding erase find
  length-erase k [] d h = absurd (cc h)
  length-erase k ((j, x) ∷ m) (n, d) h = elim (Bool-cases (bytes_eq j k)) [
    | inl e ↦
        let same = (bytes_eq_iff j k).0 e in
        rw e (rw (erase-absent k m (subst (λ (i : Bytes). find i m ≡ none) same n)) refl)
    | inr e ↦ rw e (ap suc (length-erase k m d (rw e at h)))
  ]
