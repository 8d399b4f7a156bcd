-- ===== src/Netlink/Walk.antt =====
-- The listener looks at each message of a datagram, and ends.
use ex_netlink.Base.{ℕ, ◌<◌, ◌≡◌, List, [], ◌∷◌, ◌++◌, Bool, true, false}
use ex_netlink.Netlink.Listener.{MessageType, Line, report}

abbrev pub reports : List MessageType → List Line
reports [] = []
reports (t ∷ ts) = report t ++ reports ts

module _ (nlmsg_ok : ℕ → ℕ → Bool) (nlmsg_next : ℕ → ℕ → ℕ × ℕ) (nlmsg_type : ℕ → MessageType) where
  -- The types of the messages from a position on, up to the first that NLMSG_OK rejects.
  pub data Messages : ℕ → ℕ → List MessageType → Type 0 where
    ends : {nlh size : ℕ} → nlmsg_ok nlh size ≡ false → Messages nlh size []
    goes_on :
        {nlh size : ℕ} {ts : List MessageType}
        → nlmsg_ok nlh size ≡ true
        → Messages (nlmsg_next nlh size).0 (nlmsg_next nlh size).1 ts
        → Messages nlh size (nlmsg_type nlh ∷ ts)

  -- NLMSG_NEXT takes at least the header of a message that NLMSG_OK has accepted off the size.
  abbrev pub Advances : Type 0
  Advances = (nlh size : ℕ) → nlmsg_ok nlh size ≡ true → (nlmsg_next nlh size).1 < size
