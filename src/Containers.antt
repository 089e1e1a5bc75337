-- ===== src/Containers.antt =====
-- `std::set` and `std::map` as lists in the order of their comparison, which is how they are
-- iterated. A map is a list of pairs in the order of the keys.
pub mod Sorted
use node_infrastructure_torr.Prelude.{Bool, List, [], ◌∷◌, if◌then◌else◌}

-- The place of `x`; `meet x y` is what stays where `y` is equivalent to it.
unfoldable pub place {ℓ} : {A : Type ℓ} → (A → A → Bool) → (A → A → A) → A → List A → List A
place lt meet x [] = x ∷ []
place lt meet x (y ∷ ys) =
    let rest = place lt meet x ys in
    if lt x y then x ∷ (y ∷ ys) else if lt y x then y ∷ rest else meet x y ∷ ys

abbrev keep_old {ℓ} : {A : Type ℓ} → A → A → A
keep_old x y = y

-- set.insert(x), which leaves an equivalent element as it is.
unfoldable pub insert {ℓ} : {A : Type ℓ} → (A → A → Bool) → A → List A → List A
unfolding place
insert lt x xs = place lt keep_old x xs

abbrev pub lt_key {ℓ κ} : {K : Type ℓ} {V : Type κ} → (K → K → Bool) → K × V → K × V → Bool
lt_key lt p q = lt p.0 q.0

abbrev take_new {ℓ} : {A : Type ℓ} → A → A → A
take_new x y = x

-- map[key] = value
pub assign_key {ℓ κ} :
    {K : Type ℓ} {V : Type κ} → (K → K → Bool) → K × V → List (K × V) → List (K × V)
unfolding place
assign_key lt p ps = place (lt_key lt) take_new p ps
