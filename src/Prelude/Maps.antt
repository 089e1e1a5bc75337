-- ===== src/Prelude/Maps.antt =====
-- `std::unordered_map<std::string, V>` as an association list. The order of the entries is that of
-- the first insertion, where C++ leaves it open: no definition of the library depends on it.
use Prim.Native.Nat.{ℕ, zero, suc, ◌<◌}
use node_infrastructure_torr.Prelude.Lists.{length}
use mathlib.Core.Path.{◌≡◌, refl}
use mathlib.Core.Option.{Option, none, some}
use mathlib.Core.Logic.{◌⊎◌, inl, inr}
use mathlib.Core.Bool.{false}
use mathlib.Core.List.{List, [], ◌∷◌}
use native.Mathlib.Omega.{arith}
use node_infrastructure_torr.Prelude.Tests.{Bool-cases, if◌then◌else◌}
use node_infrastructure_torr.Prelude.Strings.{Bytes, bytes_eq, bytes_eq_iff, bytes_eq_refl}

abbrev pub Map {ℓ} : Type ℓ → Type ℓ
Map V = List (Bytes × V)

module _ {ℓ} {V : Type ℓ} where
  -- m.find(k)
  unfoldable pub find : Bytes → Map V → Option V
  find k [] = none
  find k ((j, v) ∷ m) = if bytes_eq j k then some v else find k m

  -- m[k] = v
  unfoldable pub assign : Bytes → V → Map V → Map V
  assign k v [] = (k, v) ∷ []
  assign k v ((j, w) ∷ m) =
      let rest = assign k v m in if bytes_eq j k then (j, v) ∷ m else (j, w) ∷ rest

  -- m.erase(k)
  unfoldable pub erase : Bytes → Map V → Map V
  erase k [] = []
  erase k ((j, v) ∷ m) = let rest = erase k m in if bytes_eq j k then rest else (j, v) ∷ rest

  pub find-assign :
      (k j : Bytes) (v : V) (m : Map V)
      → find j (assign k v m) ≡ (if bytes_eq k j then some v else find j m)
  unfolding find assign
  find-assign k j v [] = refl
  find-assign k j v ((i, w) ∷ m) =
      ground (arith, bytes_eq_iff i k, bytes_eq_iff i j, bytes_eq_iff k j, find-assign k j v m)

  pub find-erase :
      (k j : Bytes) (m : Map V) → find j (erase k m) ≡ (if bytes_eq k j then none else find j m)
  unfolding find erase
  find-erase k j [] = ground arith
  find-erase k j ((i, w) ∷ m) =
      ground (arith, bytes_eq_iff i k, bytes_eq_iff i j, bytes_eq_iff k j, find-erase k j m)

  pub erase-absent : (k : Bytes) (m : Map V) → find k m ≡ none → erase k m ≡ m
  unfolding find erase
  erase-absent k [] h = refl
  erase-absent k ((i, w) ∷ m) h = ground (arith, erase-absent k m)

  pub erase-assign : (k : Bytes) (v : V) (m : Map V) → erase k (assign k v m) ≡ erase k m
  unfolding assign erase
  erase-assign k v [] = ground (arith, bytes_eq_iff k k)
  erase-assign k v ((i, w) ∷ m) = ground (arith, erase-assign k v m)

  pub assign-assign : (k : Bytes) (v w : V) (m : Map V) → assign k w (assign k v m) ≡ assign k w m
  unfolding assign
  assign-assign k v w [] = ground (arith, bytes_eq_iff k k)
  assign-assign k v w ((i, x) ∷ m) = ground (arith, assign-assign k v w m)

pub ruleset map_laws = (find-assign, find-erase)

pub length-assign-pos {ℓ} : {V : Type ℓ} (k : Bytes) (v : V) (m : Map V) → 0 < length (assign k v m)
unfolding assign
length-assign-pos k v [] = omega arith
length-assign-pos k v ((j, w) ∷ m) = ground (arith, length-assign-pos k v m)

pub pred_of_pos : (n : ℕ) → 0 < n → (m : ℕ) × (n ≡ suc m)
pred_of_pos zero h = absurd (omega arith)
pred_of_pos (suc n) h = (n, refl)

module _ {ℓ} {V : Type ℓ} where
  pub find-assign_self : (k : Bytes) (v : V) (m : Map V) → find k (assign k v m) ≡ some v
  find-assign_self k v m = rw (find-assign k k v m, bytes_eq_refl k)

  pub find-assign_ne :
      (k j : Bytes) (v : V) (m : Map V) → bytes_eq k j ≡ false → find j (assign k v m) ≡ find j m
  find-assign_ne k j v m e = rw (find-assign k j v m, e)

  pub find-assign_cases :
      (k j : Bytes) (v : V) (m : Map V) {x : V}
      → find j (assign k v m) ≡ some x
      → ((k ≡ j) × (v ≡ x)) ⊎ ((bytes_eq k j ≡ false) × (find j m ≡ some x))
  find-assign_cases k j v m e = elim (Bool-cases (bytes_eq k j)) [
    | inl same ↦
        let e' = rw (find-assign k j v m, same) at e in inl ((bytes_eq_iff k j).0 same, cc e')
    | inr other ↦ inr (other, rw (find-assign k j v m, other) at e)
  ]
