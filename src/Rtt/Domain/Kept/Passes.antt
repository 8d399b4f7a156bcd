-- ===== src/Rtt/Domain/Kept/Passes.antt =====
-- What passes of `startDomain` keep: whatever its turns and the new connections keep.
use ex_netlink.Base.{
  ℕ, zero, suc, ◌-◌, ◌≡◌, refl, subst, inl, inr, Bool, true, false, Bool-cases, Option,
  Option-cases, none, some, List, [], ◌∷◌, get_elem?, length, All, All-append,
}
use ex_netlink.Rtt.Accept.{create}
use ex_netlink.Rtt.Translation.{Connector, nothing, new_connector}
use ex_netlink.Rtt.Domain.Defs.{Bits, Domain, on_new_connect}
use ex_netlink.Rtt.Domain.Turn.{Act, Turn, falls, continues, returns, faults, turn}
use ex_netlink.Rtt.Domain.Pass.{
  World, Outcome, passed, ended, crashed, log_pass, follow, is_ready, visit, walk, hand_over,
  accept_one, pass, next_pass, start_domain,
}
use ex_netlink.Rtt.Domain.Kept.Turns.{Closed, Leaves, turn-Leaves}

module _ (P : Domain → Type 0) (Q : Act → Type 0) where
  -- The state and the log that a pass leaves, if it leaves one.
  abbrev pub Ends : Outcome → Type 0
  Ends (passed d acts) = P d × All Q acts
  Ends (ended d acts) = P d × All Q acts
  Ends crashed = Unit {0}

  Ends-log_pass :
      (before : List Act) (o : Outcome) → All Q before → Ends o → Ends (log_pass before o)
  unfolding log_pass
  Ends-log_pass before (passed d acts) q h = (h.0, All-append Q before acts q h.1)
  Ends-log_pass before (ended d acts) q h = (h.0, All-append Q before acts q h.1)
  Ends-log_pass before crashed q h = h

  Ends-follow :
      (t : Turn) (next : Domain → Outcome)
      → Leaves P Q t
      → ((d : Domain) → P d → Ends (next d))
      → Ends (follow t next)
  unfolding follow
  Ends-follow (falls d acts) next h k = Ends-log_pass acts (next d) h.1 (k d h.0)
  Ends-follow (continues d acts) next h k = Ends-log_pass acts (next d) h.1 (k d h.0)
  Ends-follow (returns d acts) next h k = h
  Ends-follow faults next h k = tt

  Ends-next_pass :
      (o : Outcome) (next : Domain → Outcome)
      → Ends o
      → ((d : Domain) → P d → Ends (next d))
      → Ends (next_pass o next)
  unfolding next_pass
  Ends-next_pass (passed d acts) next h k = Ends-log_pass acts (next d) h.1 (k d h.0)
  Ends-next_pass (ended d acts) next h k = h
  Ends-next_pass crashed next h k = tt

  module _ (fresh : ℕ → List ℕ) (c : (i f : ℕ) → Closed P Q i f)
      (placed : (d e : Domain) (f : ℕ) (con : Connector)
        → con.stored ≡ nothing
        → on_new_connect d f con ≡ some e
        → P d
        → P e) where
    visit-Ends :
        (w : World) (i f : ℕ) (r : Bits) (n : ℕ) (ready : Bool) (d : Domain)
        (next : ℕ → Domain → Outcome)
        → P d
        → ((m : ℕ) (e : Domain) → P e → Ends (next m e))
        → Ends (visit fresh w i f r n ready d next)
    unfolding visit
    visit-Ends w i f r zero ready d next p k = (p, tt)
    visit-Ends w i f r (suc m) true d next p k =
        Ends-follow (turn fresh (w.calls i) i f r d) (next m)
          (turn-Leaves P Q fresh (w.calls i) (c i f) r d p) (k m)
    visit-Ends w i f r (suc m) false d next p k = k (suc m) d p

    walk-Ends : (w : World) (left i n : ℕ) (d : Domain) → P d → Ends (walk fresh w left i n d)
    unfolding walk
    walk-Ends w zero i n d p = (p, tt)
    walk-Ends w (suc left) i n d p = elim (Option-cases (get_elem? d.fds i)) [
      | inl e ↦ rw (e, Ends, walk) tt
      | inr (s, e) ↦
          rw (e, Ends, walk)
            (elim (Option-cases s.fd) [
              | inl g ↦ rw (g, Ends, walk) (walk-Ends w left (suc i) n d p)
              | inr (f, g) ↦
                  rw (g, Ends, walk)
                    (visit-Ends w i f s.revents n (is_ready s.revents) d (walk fresh w left (suc i))
                      p (λ m e q. walk-Ends w left (suc i) m e q))
            ])
    ]

    hand_over_keeps :
        (w : World) (o : Option ℕ) (d e : Domain) → hand_over fresh w o d ≡ some e → P d → P e
    unfolding hand_over new_connector
    hand_over_keeps w none d e h p = subst P (cc) p
    hand_over_keeps w (some f) d e h p = placed d e f _ refl h p

    accept_one-Ends :
        (w : World) (connector handed : Option ℕ) (d : Domain)
        → P d
        → Ends (accept_one fresh w (connector, handed) d)
    unfolding accept_one
    accept_one-Ends w connector handed d p = elim (Option-cases (hand_over fresh w handed d)) [
      | inl e ↦ rw (e, Ends, accept_one) tt
      | inr (e, h) ↦
          rw (h, Ends, accept_one)
            (elim (Option-cases connector) [
              | inl g ↦ rw (g, Ends, accept_one) (hand_over_keeps w handed d e h p, tt)
              | inr (f, g) ↦
                  rw (g, Ends, accept_one)
                    (walk-Ends w (length e.fds - 1) 1 0 e (hand_over_keeps w handed d e h p))
            ])
    ]

    pub pass-Ends : (w : World) (d : Domain) → P d → Ends (pass fresh w d)
    unfolding pass
    pass-Ends w d p = elim (Option-cases (get_elem? d.fds 0)) [
      | inl e ↦ rw (e, Ends, pass) tt
      | inr (s, e) ↦
          rw (e, Ends, pass)
            (elim (Bool-cases s.revents.pollin) [
              | inl g ↦
                  rw (g, Ends, pass)
                    (accept_one-Ends w (create w.accepted true).0 (create w.accepted true).1 d p)
              | inr g ↦ rw (g, Ends, pass) (walk-Ends w (length d.fds - 1) 1 1 d p)
            ])
    ]

    -- Any number of passes.
    pub start_domain-Ends : (ws : List World) (d : Domain) → P d → Ends (start_domain fresh ws d)
    unfolding start_domain
    start_domain-Ends [] d p = (p, tt)
    start_domain-Ends (w ∷ ws) d p =
        Ends-next_pass (pass fresh w d) (start_domain fresh ws) (pass-Ends w d p)
          (λ e q. start_domain-Ends ws e q)
