-- ===== src/Rtt/Domain/Pass.antt =====
-- set/rtt/rtt_server.cpp: `start`, and the loop of `startDomain`.
--
-- The flags of a new descriptor are only printed. Nothing in the source calls `startDomain` or writes the `revents` of an entry.
use ex_netlink.Base.{
  ℕ, zero, suc, ◌-◌, Option, none, some, List, [], ◌∷◌, ◌++◌, Bool, true, false, ◌||◌, get_elem?,
  length,
}
use ex_netlink.Sockops.Calls.{Result}
use ex_netlink.Rtt.Accept
use ex_netlink.Rtt.Accept.{create, build}
use ex_netlink.Rtt.Socket.{normal}
use ex_netlink.Rtt.Translation.{new_connector}
use ex_netlink.Rtt.Domain.Defs.{Bits, Domain, on_new_connect}
use ex_netlink.Rtt.Domain.Turn.{Calls, Act, Turn, falls, continues, returns, faults, turn}

-- `start`: 1, whatever `build` returns.
unfoldable pub start : Result → Result → ℕ × List Accept.Act
start inet_net_pton bind = (1, (build inet_net_pton bind).1)

-- What the system calls of one pass return: accept(2) with the peer's address, and the calls of each
-- entry. `owner` is the address of the new connector.
pub record World : Type 0 where
  pub accepted : Result
  pub addr : List ℕ
  pub owner : ℕ
  pub calls : ℕ → Calls

-- A pass comes to its end, ends the function with -1, or faults.
pub data Outcome : Type 0 where
  passed : Domain → List Act → Outcome
  ended : Domain → List Act → Outcome
  crashed : Outcome

unfoldable pub log_pass : List Act → Outcome → Outcome
log_pass before (passed d acts) = passed d (before ++ acts)
log_pass before (ended d acts) = ended d (before ++ acts)
log_pass before crashed = crashed

unfoldable pub follow : Turn → (Domain → Outcome) → Outcome
follow (falls d acts) next = log_pass acts (next d)
follow (continues d acts) next = log_pass acts (next d)
follow (returns d acts) next = ended d acts
follow faults next = crashed

unfoldable pub is_ready : Bits → Bool
is_ready b = b.pollerr || b.pollin || b.pollout

module _ (fresh : ℕ → List ℕ) (w : World) where
  -- An entry in use: the loop ends where `fd_size` is 0, and an entry without bits is left out.
  unfoldable pub visit : ℕ → ℕ → Bits → ℕ → Bool → Domain → (ℕ → Domain → Outcome) → Outcome
  visit i f revents zero ready d next = passed d []
  visit i f revents (suc m) true d next = follow (turn fresh (w.calls i) i f revents d) (next m)
  visit i f revents (suc m) false d next = next (suc m) d

  -- The inner loop from entry `i`, with the number of entries left and with `fd_size`.
  unfoldable pub walk : ℕ → ℕ → ℕ → Domain → Outcome
  walk zero i fd_size d = passed d []
  walk (suc left) i fd_size d = elim (get_elem? d.fds i) [
    | none ↦ crashed
    | some s ↦ elim s.fd [
      | none ↦ walk left (suc i) fd_size d
      | some f ↦ visit i f s.revents fd_size (is_ready s.revents) d (walk left (suc i))
    ]
  ]

  -- The callback of `create`, if it is called.
  unfoldable pub hand_over : Option ℕ → Domain → Option Domain
  hand_over none d = some d
  hand_over (some f) d =
      on_new_connect d f (new_connector (some f) (some w.addr) normal (some w.owner))

  -- Behind `create`: without a connector the function ends; with one, no entry is served.
  unfoldable pub accept_one : Option ℕ × Option ℕ → Domain → Outcome
  accept_one (connector, handed) d = elim (hand_over handed d) [
    | none ↦ crashed
    | some e ↦ elim connector [ none ↦ ended e [] | some f ↦ walk (length e.fds - 1) 1 0 e ]
  ]

  -- One pass of the outer loop, where `fd_size` starts as 1.
  unfoldable pub pass : Domain → Outcome
  pass d = elim (get_elem? d.fds 0) [
    | none ↦ crashed
    | some s ↦ elim s.revents.pollin [
      | true ↦ accept_one (create w.accepted true) d
      | false ↦ walk (length d.fds - 1) 1 1 d
    ]
  ]

unfoldable pub next_pass : Outcome → (Domain → Outcome) → Outcome
next_pass (passed d acts) next = log_pass acts (next d)
next_pass (ended d acts) next = ended d acts
next_pass crashed next = crashed

-- As many passes as the list has.
unfoldable pub start_domain : (ℕ → List ℕ) → List World → Domain → Outcome
start_domain fresh [] d = passed d []
start_domain fresh (w ∷ ws) d = next_pass (pass fresh w d) (start_domain fresh ws)
