-- ===== src/Rtt/Domain/Idle.antt =====
-- `startDomain` as the source has it: poll(2) is not called, and so no bit is ever set.
use ex_netlink.Base.{
  ℕ, zero, suc, ◌≡◌, ◌<◌, refl, some, List, [], ◌∷◌, get_elem?, length, All, arith,
}
use ex_netlink.Rtt.Translation.{Connector}
use ex_netlink.Rtt.Domain.Defs.{Slot, Domain, no_bits, on_new_connect}

-- No entry has a bit in its `revents`.
abbrev pub IsIdle : List Slot → Type 0
IsIdle ss = All (λ s. s.revents ≡ no_bits) ss

pub in_range :
    {A : Type 0} (ss : List A) (i : ℕ) → i < length ss → (s : A) × (get_elem? ss i ≡ some s)
in_range [] i h = absurd (omega arith)
in_range (s ∷ ss) zero h = (s, refl)
in_range (s ∷ ss) (suc i) h = in_range ss i (omega arith)

-- The states behind one new connection or more.
pub data Connected : Domain → Type 0 where
  first :
      {e : Domain} (f : ℕ) (c : Connector)
      → on_new_connect (record { fds = []; translations = [] }) f c ≡ some e
      → Connected e
  next :
      {d e : Domain} (f : ℕ) (c : Connector)
      → Connected d
      → on_new_connect d f c ≡ some e
      → Connected e
