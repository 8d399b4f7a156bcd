-- ===== src/Rtt/Poll/Events.antt =====
-- Which sockets `event_handler` calls the registered handler for.
use ex_netlink.Base.{
  ℕ, zero, suc, ◌≡◌, refl, ap, Option, none, some, List, [], ◌∷◌, take, Option-cases, inl, inr,
}
use ex_netlink.Rtt.Socket.{Socket}
use ex_netlink.Rtt.Poll.Defs.{Events, PollFd, no_events, serves, event_handler}

-- The entries of the array whose socket is registered and has some switch on.
abbrev cons_served : Option ℕ → PollFd → List (ℕ × Events) → List (ℕ × Events)
cons_served none f r = r
cons_served (some address) f r = (address, f.revents) ∷ r

abbrev pub eligible : List (Option ℕ × ℕ) → (ℕ → Socket) → List PollFd → List (ℕ × Events)
eligible fdtbs heap [] = []
eligible fdtbs heap (f ∷ fs) = cons_served (serves fdtbs heap f.fd) f (eligible fdtbs heap fs)

take-nil : (n : ℕ) → take {A = ℕ × Events} n [] ≡ []
take-nil zero = refl
take-nil (suc n) = refl

-- With `num` ready descriptors, the handler is called for the first `num` eligible entries of the
-- array, in its order, whether poll(2) has reported an event for them or not.
event_handler_lem :
    (fdtbs : List (Option ℕ × ℕ)) (heap : ℕ → Socket) (num : ℕ) (fs : List PollFd)
    → event_handler fdtbs heap num fs ≡ take num (eligible fdtbs heap fs)
unfolding event_handler
event_handler_lem fdtbs heap zero fs = refl
event_handler_lem fdtbs heap (suc num) [] = refl
event_handler_lem fdtbs heap (suc num) (f ∷ fs) = elim (Option-cases (serves fdtbs heap f.fd)) [
  | inl e ↦ rw (e, event_handler) (event_handler_lem fdtbs heap (suc num) fs)
  | inr (address, e) ↦
      rw (e, event_handler)
        (ap (λ r. (address, f.revents) ∷ r) (event_handler_lem fdtbs heap num fs))
]

-- So if one descriptor is ready and an eligible entry without events stands before it, the handler is
-- called for that entry alone, with no event set, and the ready descriptor is not served.
pub event_handler-starves :
    (fdtbs : List (Option ℕ × ℕ)) (heap : ℕ → Socket) (idle ready : PollFd) (fs : List PollFd)
    (address : ℕ)
    → serves fdtbs heap idle.fd ≡ some address
    → idle.revents ≡ no_events
    → event_handler fdtbs heap 1 (idle ∷ ready ∷ fs) ≡ (address, no_events) ∷ []
unfolding event_handler
event_handler-starves fdtbs heap idle ready fs address s e = rw (s, event_handler, e)
