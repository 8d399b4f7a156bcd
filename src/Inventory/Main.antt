-- ===== src/Inventory/Main.antt =====
-- What the thread of `main` prints.
use ex_netlink.Base.{ℕ, ◌≡◌, refl, [], ◌∷◌, Bool, true, false, ==_refl, if◌then◌else◌}
use ex_netlink.Inventory.Defs.{
  owned, register1, matches, erase_if, remove, print_each, print_all, register_request,
  destroy_request, both_orders, main,
}

-- The explicit destructor takes the object out of the inventory, since it still has its owner; the
-- thread prints it just if it comes first.
main_lem :
    (prints_first : Bool) (a : ℕ)
    → ((main prints_first a).obs ≡ [])
      × ((main prints_first a).log ≡ (if prints_first then a ∷ [] else []))
unfolding main both_orders destroy_request register_request print_all print_each remove erase_if
    matches owned register1
main_lem true a = rw (==_refl a) (refl, refl)
main_lem false a = rw (==_refl a) (refl, refl)
