-- ===== src/UnixSocket/Child.antt =====
-- set/unixsocket/main.cpp: `child_process` and `recv_fd`.
use ex_netlink.Base.{
  ℕ, zero, suc, Option, none, some, List, [], ◌∷◌, ◌++◌, Bool, true, false, if◌then◌else◌, ◌>>=◌,
}

-- What recvmsg(2) gives: a failure, a message without a control header, or a descriptor, which is
-- `none` if it is the -1 that was there before the call.
pub data Recvmsg : Type 0 where
  not_one_byte no_header : Recvmsg
  carries : Option ℕ → Recvmsg

unfoldable pub recv_fd : Recvmsg → Option ℕ
recv_fd not_one_byte = none
recv_fd no_header = none
recv_fd (carries none) = none
recv_fd (carries (some f)) = some f

-- An entry of `pollfds` behind the first: `wants_out` if its `events` are POLLOUT and not POLLIN, and
-- the two bits of its `revents`.
pub record Entry : Type 0 where
  pub fd : Option ℕ
  pub wants_out : Bool
  pub pollin : Bool
  pub pollout : Bool

pub data Read : Type 0 where
  bytes : List ℕ → Read
  end_of_file interrupted failed : Read

pub data Action : Type 0 where
  message : ℕ → Action
  responds : ℕ → Action
  closes : ℕ → Action

-- `answer_num`, an int: `none` is any negative number.
abbrev pub decrement : Option ℕ → Option ℕ
decrement none = none
decrement (some zero) = none
decrement (some (suc n)) = some n

abbrev pub quit_entry : Entry → Entry
quit_entry s = record s { fd = none; pollin = false; pollout = false }

-- The answer to a descriptor that can be written, and the end of an iteration.
unfoldable pub respond : ℕ → Entry → Entry × List Action
respond f s = if s.pollout then (record s { fd = none }, responds f ∷ closes f ∷ []) else (s, [])

-- One iteration for an entry with bits: the entry, the actions, and whether `answer_num` is counted
-- down, which `continue` leaves out.
unfoldable pub handle_read : ℕ → Entry → Read → Entry × List Action × Bool
handle_read f s failed = (quit_entry s, closes f ∷ [], false)
handle_read f s end_of_file = (quit_entry s, closes f ∷ [], false)
handle_read f s interrupted =
    let (t, a) = respond f (record s { wants_out = true }) in (t, message f ∷ a, true)
handle_read f s (bytes b) =
    let (t, a) = respond f (record s { wants_out = true }) in (t, message f ∷ a, true)

module _ (reads : ℕ → Read) where
  unfoldable pub handle_entry : Option ℕ → Entry → Entry × List Action × Bool
  handle_entry none s = (s, [], false)
  handle_entry (some f) s =
      if s.pollin
      then handle_read f s (reads f)
      else (if s.pollout then (let (t, a) = respond f s in (t, a, true)) else (s, [], false))

  -- The `for` loop, with the number of answers left.
  unfoldable pub handle_all : Option ℕ → List Entry → List Entry × List Action
  handle_all left [] = ([], [])
  handle_all (some zero) (s ∷ ss) = (s ∷ ss, [])
  handle_all (some (suc n)) (s ∷ ss) =
      let (t, a, counts) = handle_entry s.fd s in
      let (ts, b) = handle_all (if counts then some n else some (suc n)) ss in (t ∷ ts, a ++ b)
  handle_all none (s ∷ ss) =
      let (t, a, counts) = handle_entry s.fd s in
      let (ts, b) = handle_all none ss in (t ∷ ts, a ++ b)

  -- One pass, once poll(2) has filled in the bits: whether the socket pair has a message, and which.
  unfoldable pub child_pass :
      Option ℕ → Bool → Recvmsg → List Entry → Option (List Entry × List Action)
  child_pass answers false received ss = some (handle_all answers ss)
  child_pass answers true received ss = recv_fd received >>= λ f. some (
      handle_all (decrement answers)
        (ss ++ (record { fd = some f; wants_out = false; pollin = false; pollout = false } ∷ [])))
