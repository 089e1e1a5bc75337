-- ===== src/Containers/Sorted.antt =====
-- Sorted lists keep sorted, and are built again from their elements in order.
use node_infrastructure_torr.Prelude.{
  ◌≡◌, refl, ap, ◌∙◌, sym, Bool, true, false, List, [], ◌∷◌, ◌++◌, append-nil, append_assoc, All,
  All-map, All-append, foldl, Bool-cases, inl, inr,
}
use node_infrastructure_torr.Containers.{place, keep_old, insert, lt_key, take_new, assign_key}

-- What a comparison of a container has to be.
pub record StrictOrder {ℓ} {A : Type ℓ} (lt : A → A → Bool) : Type ℓ where
  pub asym : (x y : A) → lt x y ≡ true → lt y x ≡ false
  pub trans : (x y z : A) → lt x y ≡ true → lt y z ≡ true → lt x z ≡ true

pub lt_key-StrictOrder {ℓ κ} :
    {K : Type ℓ} {V : Type κ} {lt : K → K → Bool} → StrictOrder lt → StrictOrder (lt_key {V = V} lt)
lt_key-StrictOrder o = record {
  asym = λ p q h. o.asym p.0 q.0 h;
  trans = λ p q r h k. o.trans p.0 q.0 r.0 h k;
}

abbrev pub IsSorted {ℓ} : {A : Type ℓ} → (A → A → Bool) → List A → Type ℓ
IsSorted lt [] = Unit
IsSorted lt (x ∷ xs) = All (λ y. lt x y ≡ true) xs × IsSorted lt xs

module _ {ℓ} {A : Type ℓ} (lt : A → A → Bool) (meet : A → A → A) (o : StrictOrder lt) where
  place_last :
      (x : A) (xs : List A) → All (λ y. lt y x ≡ true) xs → place lt meet x xs ≡ xs ++ (x ∷ [])
  unfolding place
  place_last x [] a = refl
  place_last x (y ∷ ys) (h, a) = rw (o.asym y x h, h) (ap (◌∷◌ y) (place_last x ys a))

  before_last :
      (xs : List A) (x : A) (ys : List A)
      → IsSorted lt (xs ++ (x ∷ ys))
      → All (λ y. lt y x ≡ true) xs
  before_last [] x ys s = tt
  before_last (z ∷ xs) x ys (a, s) = ((All-append _ xs (x ∷ ys) a).1.0, before_last xs x ys s)

  places_in_order :
      (done xs : List A)
      → IsSorted lt (done ++ xs)
      → foldl (λ s x. place lt meet x s) done xs ≡ done ++ xs
  places_in_order done [] s = sym (append-nil done)
  places_in_order done (x ∷ xs) s = rw (place_last x done (before_last done x xs s)) (
      places_in_order (done ++ (x ∷ [])) xs (rw (append_assoc done (x ∷ []) xs) s)
      ∙ append_assoc done (x ∷ []) xs)

module _ {ℓ} {A : Type ℓ} {lt : A → A → Bool} (o : StrictOrder lt) where
  -- A set whose elements are inserted in order into an empty set is that set again.
  pub foldl-insert : (xs : List A) → IsSorted lt xs → foldl (λ s x. insert lt x s) [] xs ≡ xs
  unfolding insert
  foldl-insert xs s = places_in_order lt keep_old o [] xs s

pub foldl-assign_key {ℓ κ} :
    {K : Type ℓ} {V : Type κ} {lt : K → K → Bool}
    → StrictOrder lt
    → (ps : List (K × V)) → IsSorted (lt_key lt) ps
    → foldl (λ m p. assign_key lt p m) [] ps ≡ ps
unfolding assign_key
foldl-assign_key {lt} o ps s = places_in_order (lt_key lt) take_new (lt_key-StrictOrder o) [] ps s

module _ {ℓ} {A : Type ℓ} {lt : A → A → Bool} (o : StrictOrder lt) where
  All-insert {κ} : (P : A → Type κ) (x : A) (xs : List A) → P x → All P xs → All P (insert lt x xs)
  unfolding insert place
  All-insert P x [] p a = (p, tt)
  All-insert P x (y ∷ ys) p (q, a) = elim (Bool-cases (lt x y)) [
    | inl e ↦ rw e (p, (q, a))
    | inr e ↦ elim (Bool-cases (lt y x)) [
      | inl f ↦ rw (e, f) (q, All-insert P x ys p a)
      | inr f ↦ rw (e, f) (q, a)
    ]
  ]

  -- Insertion keeps the order, without equivalent elements.
  pub insert-IsSorted : (x : A) (xs : List A) → IsSorted lt xs → IsSorted lt (insert lt x xs)
  unfolding insert place
  insert-IsSorted x [] s = (tt, tt)
  insert-IsSorted x (y ∷ ys) (a, s) = elim (Bool-cases (lt x y)) [
    | inl e ↦ rw e ((e, All-map ys (λ z h. o.trans x y z e h) a), (a, s))
    | inr e ↦ elim (Bool-cases (lt y x)) [
      | inl f ↦ rw (e, f) (All-insert (λ z. lt y z ≡ true) x ys f a, insert-IsSorted x ys s)
      | inr f ↦ rw (e, f) (a, s)
    ]
  ]
