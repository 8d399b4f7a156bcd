-- ===== src/Inventory/Tests.antt =====
-- Two requests, registered and then released.
use ex_netlink.Base.{◌≡◌, refl, [], ◌∷◌, ◌==◌, if◌then◌else◌, ◌&&◌, total}
use ex_netlink.Inventory.Removal.{is_at, remove-owned}
use ex_netlink.Inventory.{
  Inventory, owned, remove, print_all, print_each, release, set_owners, matches, erase_if,
}

abbrev two : Inventory
two = record { obs = 10 ∷ 20 ∷ []; owners = λ a. if a == 20 then 2 else 1; log = [] }

-- After the release of 10, both are still listed, and 20 alone is printed.
still_listed : (release two 10 1).obs ≡ 10 ∷ 20 ∷ []
unfolding release remove erase_if matches owned set_owners
still_listed = refl

one_printed : (print_all (release two 10 1)).log ≡ 20 ∷ []
unfolding print_all print_each release remove erase_if matches owned set_owners
one_printed = refl

remove-owned_example :
    total (is_at 20) (remove two 10).obs
    ≡ (if owned two 10 && 10 == 20 then 0 else total (is_at 20) two.obs)
remove-owned_example = remove-owned two 10 20
