-- ===== src/Cache/Tests.antt =====
-- Runs of the cache of src/Cache/Cache.cpp, and its theorem at a concrete cache.
use node_infrastructure_torr.Prelude.{
  ℕ, ◌≡◌, refl, Bytes, [], ◌∷◌, some, none, find, assign, erase, bytes_eq,
}
use node_infrastructure_torr.Cache.{Cache, empty_cache, add_value, get_value, remove}
use node_infrastructure_torr.Cache.Attributes.{IsListed, add_value-IsListed}

abbrev key : Bytes
key = 1 ∷ []

abbrev first_block : Bytes
first_block = 7 ∷ []

abbrev second_block : Bytes
second_block = 8 ∷ []

one_value : Cache ℕ
one_value = add_value key first_block 4 empty_cache

one_value-IsListed : IsListed one_value
unfolding one_value find
one_value-IsListed = add_value-IsListed key first_block 4 empty_cache (λ k v h. absurd (cc h))

-- The value of a key under two blocks is the first, and goes with either of them.
two_blocks : get_value key (add_value key second_block 5 one_value) ≡ some 4
unfolding get_value add_value one_value find assign bytes_eq
two_blocks = refl

gone_with_the_second :
    get_value key (remove second_block (add_value key second_block 5 one_value)) ≡ none
unfolding get_value add_value remove one_value find assign erase bytes_eq
gone_with_the_second = refl
