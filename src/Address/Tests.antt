-- ===== src/Address/Tests.antt =====
-- Small addresses for src/Address.cpp.
use node_infrastructure_torr.Prelude.{◌≡◌, ◌⊎◌, refl, true, false, codes, ok}
use node_infrastructure_torr.Address.{Address, address_eq, address_lt, bytes_lt}
use node_infrastructure_torr.Address.Order.{address_lt_trichotomy}

abbrev low : Address
low = record { address = codes "ab"; is_initial_w = false; is_set = true }

abbrev middle : Address
middle = record { address = codes "abc"; is_initial_w = false; is_set = true }

abbrev high : Address
high = record { address = codes "b"; is_initial_w = false; is_set = true }

low_first : address_lt low middle ≡ ok true
unfolding address_lt bytes_lt
low_first = refl

high_last : address_lt middle high ≡ ok true
unfolding address_lt bytes_lt
high_last = refl

address_lt_trichotomy_example :
    ((address_lt low high ≡ ok true)
      × (address_eq low high ≡ ok false)
      × (address_lt high low ≡ ok false))
    ⊎ ((address_lt low high ≡ ok false)
        × (address_eq low high ≡ ok true)
        × (address_lt high low ≡ ok false))
    ⊎ ((address_lt low high ≡ ok false)
        × (address_eq low high ≡ ok false)
        × (address_lt high low ≡ ok true))
address_lt_trichotomy_example = address_lt_trichotomy low high refl refl
