-- ===== src/Cache.antt =====
-- `Cache<Value>` of src/Cache/Cache.h and src/Cache/Cache.cpp: values by their keys, and the keys
-- that came with each attribute.
pub mod Attributes
mod Tests
use node_infrastructure_torr.Prelude.{
  ℕ, Bool, List, [], ◌∷◌, ◌++◌, Option, none, some, Bytes, Map, find, assign, erase,
}

pub record Cache {ℓ} (V : Type ℓ) : Type ℓ where
  pub map : Map V
  pub attributes : Map (List Bytes)

-- attributes[attribute]: an empty vector where there is none
abbrev pub keys_of : Bytes → Map (List Bytes) → List Bytes
keys_of attribute attributes = elim (find attribute attributes) [ none ↦ [] | some keys ↦ keys ]

module _ {ℓ} {V : Type ℓ} where
  abbrev pub empty_cache : Cache V
  empty_cache = record { map = []; attributes = [] }

  -- map.insert({key, value}): a value that is there stays
  pub insert_new : Bytes → V → Map V → Map V
  insert_new key value map = elim (find key map) [ none ↦ assign key value map | some _ ↦ map ]

  pub add_value : Bytes → Bytes → V → Cache V → Cache V
  unfolding insert_new
  add_value key attribute value c = record {
    map = insert_new key value c.map;
    attributes = assign attribute (keys_of attribute c.attributes ++ (key ∷ [])) c.attributes;
  }

  pub get_value : Bytes → Cache V → Option V
  get_value key c = find key c.map

  -- The loop of `remove`.
  pub erase_all : List Bytes → Map V → Map V
  erase_all [] map = map
  erase_all (key ∷ rest) map = erase_all rest (erase key map)

  pub remove : Bytes → Cache V → Cache V
  unfolding erase_all
  remove attribute c = elim (find attribute c.attributes) [
    | none ↦ c
    | some keys ↦ record { map = erase_all keys c.map; attributes = erase attribute c.attributes }
  ]
