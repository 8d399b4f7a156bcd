-- ===== src/TimeService/Defs.antt =====
-- set/time: a turn of the server's loop in one of its processes, and the client.
use ex_netlink.Base.{
  ℕ, suc, Option, none, some, List, [], ◌∷◌, ◌++◌, Bool, true, false, get_elem?, set,
}

-- What comes of fork(2) behind an `accept`: none, a child that fails one of its assertions and is
-- ended, or one that sends the time, shuts the connection down and goes on with the loop.
pub data Child : Type 0 where
  not_forked aborted answered : Child

-- A turn of the loop in the process `who`, and whether its accept(2) succeeds.
pub record Turn : Type 0 where
  pub who : ℕ
  pub accepted : Bool
  pub child : Child

-- The connections that each process has open, those that have been sent the time, and how many have
-- been accepted. A connection is known by its place in the order of acceptance, since its descriptor
-- differs between processes.
pub record Server : Type 0 where
  pub processes : List (List ℕ)
  pub served : List ℕ
  pub next : ℕ

unfoldable pub new_server : Server
new_server = record { processes = [] ∷ []; served = []; next = 0 }

-- The connection `cd` is new. Neither the process nor its child closes it.
unfoldable pub forks : Server → ℕ → List ℕ → Child → ℕ → Server
forks s who open_cds not_forked cd = record s {
  processes = set s.processes who (cd ∷ open_cds);
  next = suc cd;
}
forks s who open_cds aborted cd = record s {
  processes = set s.processes who (cd ∷ open_cds);
  next = suc cd;
}
forks s who open_cds answered cd = record {
  processes = set s.processes who (cd ∷ open_cds) ++ ((cd ∷ open_cds) ∷ []);
  served = cd ∷ s.served;
  next = suc cd;
}

-- A failed `accept` is printed, and the loop goes on.
unfoldable pub accepts : Server → ℕ → List ℕ → Child → Bool → Server
accepts s who open_cds child false = s
accepts s who open_cds child true = forks s who open_cds child s.next

-- By the connections of the process that takes the turn; `none` where there is no such process.
unfoldable pub turn_in : Server → Turn → Option (List ℕ) → Server
turn_in s t none = s
turn_in s t (some open_cds) = accepts s t.who open_cds t.child t.accepted

unfoldable pub turn : Server → Turn → Server
turn s t = turn_in s t (get_elem? s.processes t.who)

unfoldable pub run : Server → List Turn → Server
run s [] = s
run s (t ∷ ts) = run (turn s t) ts

-- What the client's read(2) gives: 0, -1, or bytes.
pub data Read : Type 0 where
  read_0 read_eof : Read
  reads : List ℕ → Read

pub data Text : Type 0 where
  socket_error connect_error connected client_will_close client_will_close_eof : Text
  received : List ℕ → Text

-- The loop of the client: what it prints, and whether it has closed its descriptor, `none` while it
-- waits.
unfoldable pub client_loop : List Read → List Text × Option Bool
client_loop [] = ([], none)
client_loop (read_0 ∷ rs) = (client_will_close ∷ [], some true)
client_loop (read_eof ∷ rs) = (client_will_close_eof ∷ [], some false)
client_loop (reads buf ∷ rs) = let (texts, end) = client_loop rs in (received buf ∷ texts, end)

unfoldable pub client : Option ℕ → Bool → List Read → List Text × Option Bool
client none is_connected rs = (socket_error ∷ [], some false)
client (some fd) false rs = (connect_error ∷ [], some false)
client (some fd) true rs = let (texts, end) = client_loop rs in (connected ∷ texts, end)
