-- ===== src/Rtt/Domain/Reach.antt =====
-- The states that the server can come to, and the agreement of its table and its array in each.
use mathlib.Core.Option.{some-injective}
use ex_netlink.Base.{ℕ, ◌≡◌, refl, sym, subst, ◌∙◌, some, List, [], ◌∷◌, arith, total, All}
use ex_netlink.Rtt.Translation.{Connector}
use ex_netlink.Rtt.Domain.Defs.{Bits, Slot, Domain, on_new_connect}
use ex_netlink.Rtt.Domain.Turn.{Act}
use ex_netlink.Rtt.Domain.Pass.{World, passed, pass}
use ex_netlink.Rtt.Domain.Inversion.{new_key}
use ex_netlink.Rtt.Domain.Matched.{IsMatched, is_fd, on_new_connect-IsMatched, IsMatched-Closed}
use ex_netlink.Rtt.Domain.Kept.Passes.{Ends, pass-Ends}

-- Bits in the `revents` of the entries, as poll(2) would write them.
unfoldable pub set_revents : List Bits → List Slot → List Slot
set_revents bits [] = []
set_revents [] (s ∷ ss) = s ∷ ss
set_revents (b ∷ bits) (s ∷ ss) = record s { revents = b } ∷ set_revents bits ss

-- The states that come from the empty one by new connections, by passes, and by bits that are written
-- between them.
pub data Reach (fresh : ℕ → List ℕ) : Domain → Type 0 where
  start : Reach fresh (record { fds = []; translations = [] })
  connected :
      {d e : Domain} (f : ℕ) (c : Connector)
      → Reach fresh d
      → on_new_connect d f c ≡ some e
      → Reach fresh e
  polled :
      {d : Domain} (bits : List Bits)
      → Reach fresh d
      → Reach fresh (record d { fds = set_revents bits d.fds })
  walked :
      {d e : Domain} (w : World) (acts : List Act)
      → Reach fresh d
      → pass fresh w d ≡ passed e acts
      → Reach fresh e

total-set_revents :
    (k : ℕ) (bits : List Bits) (ss : List Slot)
    → total (is_fd k) (set_revents bits ss) ≡ total (is_fd k) ss
unfolding set_revents
total-set_revents k bits [] = refl
total-set_revents k [] (s ∷ ss) = refl
total-set_revents k (b ∷ bits) (s ∷ ss) = ground (arith, total-set_revents k bits ss)

connect_keeps :
    (d e : Domain) (f : ℕ) (c : Connector)
    → on_new_connect d f c ≡ some e
    → IsMatched d
    → IsMatched e
connect_keeps d e f c h m =
    let (g, same, n) = on_new_connect-IsMatched d f c m (new_key d e f c h) in
    subst IsMatched (some-injective g e (sym same ∙ h)) n

-- In every state that the server can come to, each descriptor has as many entries in the array as
-- keys in the table, and one at most.
pub Reach-IsMatched : {fresh : ℕ → List ℕ} {d : Domain} → Reach fresh d → IsMatched d
Reach-IsMatched start = λ k. (refl, omega arith)
Reach-IsMatched (connected {d} {e} f c r h) = connect_keeps d e f c h (Reach-IsMatched r)
Reach-IsMatched (polled {d} bits r) =
    λ k. omega (arith, total-set_revents k bits d.fds, Reach-IsMatched r k)
Reach-IsMatched {fresh} (walked {d} {e} w acts r h) =
    let kept : IsMatched e × All (λ a. Unit {0}) acts = subst (Ends IsMatched (λ a. Unit {0})) h (
      pass-Ends IsMatched (λ a. Unit {0}) fresh IsMatched-Closed
        (λ d e f c empty k m. connect_keeps d e f c k m) w d (Reach-IsMatched r)) in
    kept.0
