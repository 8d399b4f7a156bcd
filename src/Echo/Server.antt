-- ===== src/Echo/Server.antt =====
-- set/echo/echo.server.cpp: the state of `main`, one pass of its loop, and its start.
use ex_netlink.Base.{
  ℕ, zero, suc, add64, Option, none, some, List, [], ◌∷◌, ◌++◌, Bool, true, false, ◌||◌,
  if◌then◌else◌,
}

-- An entry of `client_fds`, with the bits POLLRDNORM and POLLERR of its `revents`.
pub record Slot : Type 0 where
  pub fd : Option ℕ
  pub readable : Bool
  pub failed : Bool

-- What read(2) returns: some bytes, 0, or a negative number.
pub data Read : Type 0 where
  bytes : List ℕ → Read
  end_of_file : Read
  error : Read

pub data Action : Type 0 where
  accepted : ℕ → Action
  sent : ℕ → List ℕ → Action
  closed : ℕ → Action
  read_error : ℕ → Action

-- `client_fds` behind its first entry, the listening socket, and the static `count`.
pub record EchoServer : Type 0 where
  pub clients : List Slot
  pub count : ℕ

pub data Outcome : Type 0 where
  continues : EchoServer → List Action → Outcome
  exits : Outcome

module _ (reads : ℕ → Read) where
  -- The body of the inner loop for one entry: a negative read leaves it as it is.
  unfoldable pub answer : ℕ → Slot → Read → Slot × List Action
  answer f s (bytes b) = (s, sent f b ∷ [])
  answer f s end_of_file = (record s { fd = none }, closed f ∷ [])
  answer f s error = (s, read_error f ∷ [])

  unfoldable pub serve_fd : Option ℕ → Slot → Slot × List Action
  serve_fd none s = (s, [])
  serve_fd (some f) s = if s.readable || s.failed then answer f s (reads f) else (s, [])

  unfoldable pub serve_all : List Slot → List Slot × List Action
  serve_all [] = ([], [])
  serve_all (s ∷ ss) =
      let (s', a) = serve_fd s.fd s in let (ss', rest) = serve_all ss in (s' ∷ ss', a ++ rest)

-- The bits of poll(2), written into the entries; an entry without bits keeps the ones that it has.
unfoldable pub set_revents : List Slot → List (Bool × Bool) → List Slot
set_revents [] bits = []
set_revents (s ∷ ss) [] = s ∷ ss
set_revents (s ∷ ss) ((r, f) ∷ bits) = record s { readable = r; failed = f } ∷ set_revents ss bits

-- The branch on the listening socket. The new entry's `revents` is not set: `stale` is what the
-- memory holds.
unfoldable pub accept_one : Bool → Option ℕ → Slot → EchoServer → Outcome
accept_one false connected stale s = continues s []
accept_one true none stale s = exits
accept_one true (some f) stale s =
    continues
      (record {
        clients = s.clients ++ (record stale { fd = some f } ∷ []);
        count = add64 s.count 1;
      })
      (accepted f ∷ [])

unfoldable pub serve_clients : (ℕ → Read) → Outcome → Outcome
serve_clients reads exits = exits
serve_clients reads (continues s before) =
    let (cs, bs) = serve_all reads s.clients in continues (record s { clients = cs }) (before ++ bs)

-- One pass: `n` is the result of poll(2), `none` if it is negative.
unfoldable pub pass :
    Option ℕ → Bool → List (Bool × Bool) → Option ℕ → Slot → (ℕ → Read) → EchoServer → Outcome
pass none listening bits connected stale reads s = exits
pass (some zero) listening bits connected stale reads s = continues s []
pass (some (suc n)) listening bits connected stale reads s =
    serve_clients reads
      (accept_one listening connected stale (record s { clients = set_revents s.clients bits }))
