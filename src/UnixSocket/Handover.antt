-- ===== src/UnixSocket/Handover.antt =====
-- Which of the accepted descriptors reach the second process.
use ex_netlink.Base.{
  ℕ, ◌≡◌, Option, none, some, List, [], ◌∷◌, ◌++◌, Bool, true, ◌&&◌, if◌then◌else◌,
}
use ex_netlink.UnixSocket.Parent.{Parent, Input, parent_pass}

abbrev pub listed : Option ℕ → List ℕ
listed none = []
listed (some f) = f ∷ []

-- The descriptor that a pass has to send, where `o` waits from before: a new one takes its place.
abbrev pub waits : Input → Option ℕ → Option ℕ
waits i o = if i.answered && i.listening then i.connected else o

-- What a pass sends, and what waits behind it.
abbrev pub sent : Input → Option ℕ → List ℕ
sent i o = if i.answered && i.writable then listed (waits i o) else []

abbrev pub left_over : Input → Option ℕ → Option ℕ
left_over i o = if i.answered && i.writable then none else waits i o

-- The same of all passes.
abbrev pub handed : Option ℕ → List Input → List ℕ
handed o [] = []
handed o (i ∷ is) = sent i o ++ handed (left_over i o) is

abbrev pub waiting : Option ℕ → List Input → Option ℕ
waiting o [] = o
waiting o (i ∷ is) = waiting (left_over i o) is

input_of : Bool → Bool → Option ℕ → Bool → Input
input_of a l c w = record {
  answered = a;
  listening = l;
  connected = c;
  writable = w;
  sendmsg = true;
}

parent_of : Option ℕ → Bool → List ℕ → Parent
parent_of o b log = record { async_fd = o; wants_out = b; log = log }

abbrev Passes : Input → Parent → Type 0
Passes i s =
    (t : Parent) × (parent_pass i s ≡ some t)
    × (t.log ≡ s.log ++ sent i s.async_fd)
    × (t.async_fd ≡ left_over i s.async_fd)
