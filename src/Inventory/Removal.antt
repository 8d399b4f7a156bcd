-- ===== src/Inventory/Removal.antt =====
-- What `remove` takes from the inventory, and when.
use ex_netlink.Base.{
  ℕ, ◌≡◌, refl, ◌∙◌, List, [], ◌∷◌, false, ◌==◌, if◌then◌else◌, ◌&&◌, total, arith, ==_refl,
}
use ex_netlink.Inventory.Defs.{Inventory, owned, matches, erase_if, remove, set_owners, release}

abbrev pub is_at : ℕ → ℕ → ℕ
is_at a e = if a == e then 1 else 0

erase_if-total :
    (i : Inventory) (a b : ℕ) (es : List ℕ)
    → total (is_at b) (erase_if (matches i a) es)
      ≡ (if matches i a b then 0 else total (is_at b) es)
unfolding erase_if matches
erase_if-total i a b [] = ground arith
erase_if-total i a b (e ∷ es) = ground (arith, erase_if-total i a b es)

-- `remove` takes all entries of a request from the inventory if the request still has an owner, and
-- none if it has not; the entries of any other request stay.
pub remove-owned :
    (i : Inventory) (a b : ℕ)
    → total (is_at b) (remove i a).obs ≡ (if owned i a && a == b then 0 else total (is_at b) i.obs)
unfolding remove matches
remove-owned i a b = ground (arith, erase_if-total i a b i.obs)

gone : (i : Inventory) (a : ℕ) → owned (record i { owners = set_owners i.owners a 0 }) a ≡ false
unfolding owned set_owners
gone i a = rw (==_refl a) refl

-- When its last owner goes away, a request deregisters itself in vain: its destructor runs when the
-- weak pointers to it have expired, so the inventory keeps all its entries.
release-keeps :
    (i : Inventory) (a b : ℕ)
    → i.owners a ≡ 1
    → total (is_at b) (release i a (i.owners a)).obs ≡ total (is_at b) i.obs
unfolding release
release-keeps i a b h =
    let j : Inventory = record i { owners = set_owners i.owners a 0 } in
    rw h (remove-owned j a b ∙ rw (gone i a) refl)
