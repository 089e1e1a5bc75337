-- ===== src/Address/Order.antt =====
-- `operator<` of src/Address.cpp, by which `std::set<Address>` sorts.
use node_infrastructure_torr.Prelude.{
  ◌≡◌, refl, ◌⊎◌, Bool, true, false, Bytes, [], ◌∷◌, arith, bytes_eq, ok,
}
use node_infrastructure_torr.Containers.Sorted.{StrictOrder}
use node_infrastructure_torr.Address.{Address, bytes_lt, address_lt, address_eq}

bytes_lt_trans :
    (xs ys zs : Bytes) → bytes_lt xs ys ≡ true → bytes_lt ys zs ≡ true → bytes_lt xs zs ≡ true
unfolding bytes_lt
bytes_lt_trans xs [] [] h k = ground arith
bytes_lt_trans [] [] (z ∷ zs) h k = refl
bytes_lt_trans (x ∷ xs) [] (z ∷ zs) h k = ground arith
bytes_lt_trans [] (y ∷ ys) [] h k = ground arith
bytes_lt_trans [] (y ∷ ys) (z ∷ zs) h k = refl
bytes_lt_trans (x ∷ xs) (y ∷ ys) [] h k = ground arith
bytes_lt_trans (x ∷ xs) (y ∷ ys) (z ∷ zs) h k = ground (arith, bytes_lt_trans xs ys zs)

abbrev pub Compares : Bytes → Bytes → Bool → Bool → Bool → Type 0
Compares xs ys less equal greater =
    (bytes_lt xs ys ≡ less) × (bytes_eq xs ys ≡ equal) × (bytes_lt ys xs ≡ greater)

pub bytes_lt_cases :
    (xs ys : Bytes)
    → Compares xs ys true false false
      ⊎ Compares xs ys false true false
      ⊎ Compares xs ys false false true
unfolding bytes_lt bytes_eq
bytes_lt_cases [] [] = ground arith
bytes_lt_cases [] (y ∷ ys) = ground arith
bytes_lt_cases (x ∷ xs) [] = ground arith
bytes_lt_cases (x ∷ xs) (y ∷ ys) = ground (arith, bytes_lt_cases xs ys)

-- The order of `std::string`, and so that of addresses that are set, is strict.
pub bytes_lt-StrictOrder : StrictOrder bytes_lt
bytes_lt-StrictOrder = record {
  asym = λ xs ys h. ground (arith, bytes_lt_cases xs ys, h);
  trans = bytes_lt_trans;
}

-- The order on addresses that are set is transitive.
pub address_lt_trans :
    (a b c : Address)
    → address_lt a b ≡ ok true
    → address_lt b c ≡ ok true
    → address_lt a c ≡ ok true
unfolding address_lt
address_lt_trans a b c h k = ground (arith, bytes_lt_trans a.address b.address c.address)

-- Of two addresses that are set exactly one of three holds: the first is smaller, they are equal by
-- `operator==`, the second is smaller.
pub address_lt_trichotomy :
    (a b : Address)
    → a.is_set ≡ true
    → b.is_set ≡ true
    → ((address_lt a b ≡ ok true) × (address_eq a b ≡ ok false) × (address_lt b a ≡ ok false))
      ⊎ ((address_lt a b ≡ ok false) × (address_eq a b ≡ ok true) × (address_lt b a ≡ ok false))
      ⊎ ((address_lt a b ≡ ok false) × (address_eq a b ≡ ok false) × (address_lt b a ≡ ok true))
unfolding address_lt address_eq
address_lt_trichotomy a b h k = ground (arith, bytes_lt_cases a.address b.address)
