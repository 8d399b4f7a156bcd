-- ===== src/Sample/Tests.antt =====
-- Two options are known, and the host has one address.
use ex_netlink.Base.{◌≡◌, refl, none, some, [], ◌∷◌, true}
use ex_netlink.Sample.{ip_addr, address_type, print_host, print_each}

one_address :
    print_host
      (some (record { h_aliases = none ∷ []; inet = true; h_addr_list = some 7 ∷ none ∷ [] }))
    ≡ some (address_type true ∷ ip_addr 1 7 ∷ [])
unfolding print_host print_each
one_address = refl

-- An array without a null pointer is read behind its end.
no_end : print_host (some (record { h_aliases = []; inet = true; h_addr_list = none ∷ [] })) ≡ none
unfolding print_host print_each
no_end = refl
