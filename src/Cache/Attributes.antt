-- ===== src/Cache/Attributes.antt =====
-- What stays readable in the cache of src/Cache/Cache.cpp when attributes are removed.
use node_infrastructure_torr.Prelude.{
  ◌≡◌, refl, ◌∙◌, inl, inr, arith, true, false, ◌||◌, List, [], ◌∷◌, ◌++◌, none, some,
  if◌then◌else◌, Bytes, bytes_eq, bytes_eq_iff, Map, find, erase, find-assign, find-erase,
  Option-cases, Bool-cases,
}
use node_infrastructure_torr.Heap.Reduce.{among}
use node_infrastructure_torr.Cache.{
  Cache, keys_of, insert_new, add_value, get_value, erase_all, remove,
}

pub among-snoc :
    (k : Bytes) (l : List Bytes) (j : Bytes) → among k (l ++ (j ∷ [])) ≡ (among k l || bytes_eq j k)
among-snoc k [] j = ground arith
among-snoc k (i ∷ rest) j = ground (arith, among-snoc k rest j)

module _ {ℓ} {V : Type ℓ} where
  pub find-erase_all :
      (k : Bytes) (l : List Bytes) (m : Map V)
      → find k (erase_all l m) ≡ (if among k l then none else find k m)
  unfolding erase_all
  find-erase_all k [] m = refl
  find-erase_all k (j ∷ rest) m =
      ground (arith, find-erase_all k rest (erase j m), find-erase j k m)

  -- Each key with a value came with an attribute that was not removed.
  abbrev pub IsListed : Cache V → Type ℓ
  IsListed c =
      (k : Bytes) (v : V)
      → find k c.map ≡ some v
      → (a : Bytes) × (among k (keys_of a c.attributes) ≡ true)

  pub keys_of-add :
      (key attribute a : Bytes) (value : V) (c : Cache V)
      → keys_of a (add_value key attribute value c).attributes ≡ (
          if bytes_eq attribute a
          then keys_of attribute c.attributes ++ (key ∷ [])
          else keys_of a c.attributes)
  unfolding add_value
  keys_of-add key attribute a value c =
      ground
        (arith, find-assign attribute a (keys_of attribute c.attributes ++ (key ∷ [])) c.attributes)

  find_other :
      (key attribute k : Bytes) (value : V) (c : Cache V)
      → bytes_eq key k ≡ false
      → find k c.map ≡ find k (add_value key attribute value c).map
  unfolding add_value insert_new
  find_other key attribute k value c e = ground (arith, e, find-assign key k value c.map)

  listed_before :
      (key attribute k : Bytes) (value : V) (c : Cache V)
      → ((a : Bytes) × (among k (keys_of a c.attributes) ≡ true))
      → (a : Bytes) × (among k (keys_of a (add_value key attribute value c).attributes) ≡ true)
  listed_before key attribute k value c (a, h) = (
    a,
    ground (
      arith,
      keys_of-add key attribute a value c,
      among-snoc k (keys_of attribute c.attributes) key,
      bytes_eq_iff attribute a,
    ),
  )

  -- `addValue` keeps the keys with a value listed.
  pub add_value-IsListed :
      (key attribute : Bytes) (value : V) (c : Cache V)
      → IsListed c
      → IsListed (add_value key attribute value c)
  add_value-IsListed key attribute value c l k v h = elim (Bool-cases (bytes_eq key k)) [
    | inl same ↦ (
      attribute,
      ground (
        arith,
        same,
        keys_of-add key attribute attribute value c,
        among-snoc k (keys_of attribute c.attributes) key,
        bytes_eq_iff attribute attribute,
      ),
    )
    | inr other ↦
        listed_before key attribute k value c (l k v (find_other key attribute k value c other ∙ h))
  ]

  get_value-remove :
      (attribute k : Bytes) (c : Cache V)
      → get_value k (remove attribute c)
        ≡ (if among k (keys_of attribute c.attributes) then none else get_value k c)
  unfolding remove get_value
  get_value-remove attribute k c = elim (Option-cases (find attribute c.attributes)) [
    | inl e ↦ ground (arith, e)
    | inr (keys, e) ↦ ground (arith, e, find-erase_all k keys c.map)
  ]

  pub keys_of-remove :
      (attribute a : Bytes) (c : Cache V)
      → keys_of a (remove attribute c).attributes
        ≡ (if bytes_eq attribute a then [] else keys_of a c.attributes)
  unfolding remove
  keys_of-remove attribute a c =
      ground (arith, find-erase attribute a c.attributes, bytes_eq_iff attribute a)

  -- `remove` leaves each key with a value one of the attributes that it came with: the values of an
  -- attribute cannot outlive the attributes. A key that came with the removed attribute has no
  -- value any more, also where it came with another one; every other key keeps its value, and every
  -- other attribute its keys.
  pub remove-IsListed :
      (attribute : Bytes) (c : Cache V)
      → IsListed c
      → IsListed (remove attribute c)
        × ((k : Bytes)
            → get_value k (remove attribute c)
              ≡ (if among k (keys_of attribute c.attributes) then none else get_value k c))
        × ((a : Bytes)
            → keys_of a (remove attribute c).attributes
              ≡ (if bytes_eq attribute a then [] else keys_of a c.attributes))
  unfolding get_value
  remove-IsListed attribute c l = (
    (λ k v h.
        let here = get_value-remove attribute k c in
        let (a, e) = l k v (ground (arith, here, h)) in
        (a, ground (arith, here, h, keys_of-remove attribute a c, bytes_eq_iff attribute a))),
    (λ k. get_value-remove attribute k c),
    (λ a. keys_of-remove attribute a c),
  )
