-- ===== src/Netlink/Listener.antt =====
-- main.cpp: one pass of the endless loop of `main`.
use ex_netlink.Base.{
  ℕ, zero, suc, Option, none, some, List, [], ◌∷◌, ◌++◌, Bool, true, false, if◌then◌else◌, ◌>>=◌,
}

pub data MessageType : Type 0 where
  done failure newlink dellink newaddr deladdr : MessageType
  unlisted : ℕ → MessageType

-- The lines that it prints.
pub data Line : Type 0 where
  fail_to_recv read_0_bytes newlink_or_dellink : Line

-- What recv(2) returns: a negative number, or the number of bytes read.
pub data Recv : Type 0 where
  fails : Recv
  reads : ℕ → Recv

-- The `switch`: `break` leaves it, and never the loop around it.
unfoldable pub report : MessageType → List Line
report done = []
report failure = []
report newlink = newlink_or_dellink ∷ []
report dellink = newlink_or_dellink ∷ []
report newaddr = newlink_or_dellink ∷ []
report deladdr = newlink_or_dellink ∷ []
report (unlisted n) = []

module _ (nlmsg_ok : ℕ → ℕ → Bool) (nlmsg_next : ℕ → ℕ → ℕ × ℕ) (nlmsg_type : ℕ → MessageType) where
  -- The `for` loop over the messages of one datagram, from `nlh` on; the first argument is fuel.
  unfoldable pub walk : ℕ → ℕ → ℕ → Option (List Line)
  walk zero nlh size = none
  walk (suc fuel) nlh size =
      let (nlh', size') = nlmsg_next nlh size in
      let rest = walk fuel nlh' size' in
      if nlmsg_ok nlh size
      then (rest >>= λ lines. some (report (nlmsg_type nlh) ++ lines))
      else some []

  unfoldable pub handle : Recv → Option (List Line)
  handle fails = some (fail_to_recv ∷ [])
  handle (reads zero) = some (read_0_bytes ∷ [])
  handle (reads (suc n)) = walk (suc (suc n)) 0 (suc n)

  -- One pass: whether select(2) returned a positive number, whether the socket is in its set, and
  -- the result of recv(2).
  unfoldable pub pass : Bool → Bool → Recv → Option (List Line)
  pass false isset received = some []
  pass true false received = some []
  pass true true received = handle received
