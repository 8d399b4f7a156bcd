-- ===== src/Rtt/Poll/Defs.antt =====
-- set/rtt/Poll.h: the state of `Poll` and its operations.
--
-- `fdtbs_` maps a descriptor to the address of a socket object; the objects themselves are a
-- function, `heap`. What poll(2) writes into its array and returns is an argument of `run`, and a
-- call of the registered handler is an entry of the list that `event_handler` returns. The mutex is
-- held for the whole of `add`, `remove` and `update`.
use ex_netlink.Base.{
  ℕ, zero, suc, Option, none, some, List, [], ◌∷◌, ◌++◌, Bool, true, false, ◌&&◌, ◌||◌, ◌==◌,
  if◌then◌else◌,
}
use ex_netlink.Rtt.Socket.{
  Socket, SocketModel, listen_shared, listen_excluse, normal, copy, shared_from_this, responsable,
}

-- The bits POLLIN, POLLOUT and POLLERR of `events` and `revents`.
pub record Events : Type 0 where
  pub pollin : Bool
  pub pollout : Bool
  pub pollerr : Bool

-- `struct pollfd`
pub record PollFd : Type 0 where
  pub fd : Option ℕ
  pub events : Events
  pub revents : Events

abbrev pub no_events : Events
no_events = record { pollin = false; pollout = false; pollerr = false }

abbrev pub same_fd : Option ℕ → Option ℕ → Bool
same_fd none none = true
same_fd none (some b) = false
same_fd (some a) none = false
same_fd (some a) (some b) = a == b

pub record Poll : Type 0 where
  pub fds : List PollFd
  pub fdtbs : List (Option ℕ × ℕ)

unfoldable pub new_poll : Poll
new_poll = record { fds = []; fdtbs = [] }

-- `fdtbs_[fd]` and `fdtbs_.contains(fd)`.
unfoldable pub find : Option ℕ → List (Option ℕ × ℕ) → Option ℕ
find id [] = none
find id ((k, p) ∷ t) = if same_fd id k then some p else find id t

unfoldable pub contains : Option ℕ → List (Option ℕ × ℕ) → Bool
contains id [] = false
contains id ((k, p) ∷ t) = same_fd id k || contains id t

unfoldable pub events_of : Socket → Events
events_of s = record { pollin = s.read; pollout = s.write; pollerr = s.error }

-- What the mutating `find_if` of `add` and `update` does: the first entry of the descriptor gets the
-- events.
unfoldable pub set_events : Option ℕ → Events → List PollFd → List PollFd
set_events id e [] = []
set_events id e (p ∷ ps) =
    if same_fd p.fd id then record p { fd = id; events = e } ∷ ps else p ∷ set_events id e ps

-- `add` from the insertion into `fdtbs_` on. The last line appends in either case.
unfoldable pub register : Poll → Socket → ℕ → Poll
register p s address = record {
  fds =
      set_events s.id (events_of s) p.fds
      ++ (record { fd = s.id; events = events_of s; revents = no_events } ∷ []);
  fdtbs = if contains s.id p.fdtbs then p.fdtbs else (s.id, address) ∷ p.fdtbs;
}

-- The `switch` of `add`: whether a socket of this model is looked up first.
unfoldable pub checks_table : SocketModel → Bool
checks_table listen_shared = false
checks_table listen_excluse = true
checks_table normal = true

pub data Outcome : Type 0 where
  returns : Poll → Outcome
  throws : Poll → Outcome

unfoldable pub add : Poll → Socket → Outcome
add p unique =
    if checks_table (copy unique).model && contains unique.id p.fdtbs
    then returns p
    else elim (shared_from_this (copy unique)) [
      | none ↦ throws p
      | some address ↦ returns (register p (copy unique) address)
    ]

unfoldable pub erase_fd : Option ℕ → List PollFd → List PollFd
erase_fd id [] = []
erase_fd id (p ∷ ps) = if same_fd id p.fd then erase_fd id ps else p ∷ erase_fd id ps

unfoldable pub erase_key : Option ℕ → List (Option ℕ × ℕ) → List (Option ℕ × ℕ)
erase_key id [] = []
erase_key id ((k, a) ∷ t) = if same_fd id k then erase_key id t else (k, a) ∷ erase_key id t

unfoldable pub remove : Poll → Socket → Poll
remove p unique =
    if contains unique.id p.fdtbs
    then record { fds = erase_fd unique.id p.fds; fdtbs = erase_key unique.id p.fdtbs }
    else p

unfoldable pub update : Poll → Socket → Poll
update p unique = record p { fds = set_events unique.id (events_of unique) p.fds }

-- One entry of the loop of `event_handler`: the address of the socket that it serves, if any.
unfoldable pub serves : List (Option ℕ × ℕ) → (ℕ → Socket) → Option ℕ → Option ℕ
serves fdtbs heap none = none
serves fdtbs heap (some f) = elim (find (some f) fdtbs) [
  | none ↦ none
  | some address ↦ if responsable (heap address) then some address else none
]

-- `event_handler`: the calls of the registered handler, each with its socket and events.
unfoldable pub event_handler :
    List (Option ℕ × ℕ) → (ℕ → Socket) → ℕ → List PollFd → List (ℕ × Events)
event_handler fdtbs heap zero fs = []
event_handler fdtbs heap (suc num) [] = []
event_handler fdtbs heap (suc num) (f ∷ fs) = elim (serves fdtbs heap f.fd) [
  | some address ↦ (address, f.revents) ∷ event_handler fdtbs heap num fs
  | none ↦ event_handler fdtbs heap (suc num) fs
]

-- `run`: `none` is a negative result of poll(2) or of gettimeofday(2). The array that poll(2) has
-- filled in is `polled`, a copy of `fds_` made before the call.
unfoldable pub run :
    Poll → (ℕ → Socket) → Option ℕ → List PollFd → Bool → Option (List (ℕ × Events))
run p heap none polled clock = none
run p heap (some num) polled false = none
run p heap (some num) polled true = some (event_handler p.fdtbs heap num polled)
