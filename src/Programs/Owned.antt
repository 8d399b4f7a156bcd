-- ===== src/Programs/Owned.antt =====
-- Which descriptors the programs use, and which they leave open.
use ex_netlink.Base.{
  ℕ, zero, suc, ◌≡◌, none, some, List, [], ◌∷◌, Bool, true, false, ◌==◌, ==_refl, if◌then◌else◌,
  All, arith,
}
use ex_netlink.Sockops.Calls.{Result, returned, failed}
use ex_netlink.Programs.Sys.{
  Fd, Call, socket, bind, connect, listen, accept, close, send, recvfrom, sendto, add_membership,
  set_reuse_port, set_reuse_addr, open_fifo, epoll_create, inotify_init, inotify_add_watch,
  epoll_add, Prog, End, exited, run, fd_of, or_exit,
}
use ex_netlink.Programs.Rules.{Follows, Checked, run-Follows}
use ex_netlink.Programs.Unix
use ex_netlink.Programs.Multicast

-- The descriptors that a call is given.
pub uses : Call → List Fd
uses (bind f a) = f ∷ []
uses (connect f a) = f ∷ []
uses (listen f n) = f ∷ []
uses (accept f) = f ∷ []
uses (close f) = f ∷ []
uses (send f n) = f ∷ []
uses (recvfrom f n) = f ∷ []
uses (sendto f n a) = f ∷ []
uses (add_membership f) = f ∷ []
uses (set_reuse_port f) = f ∷ []
uses (set_reuse_addr f) = f ∷ []
uses (inotify_add_watch f) = f ∷ []
uses (epoll_add e f) = e ∷ f ∷ []
uses other = []

-- Whether the result of a call is a new descriptor.
pub opens : Call → Bool
opens (socket k) = true
opens (accept f) = true
opens open_fifo = true
opens epoll_create = true
opens inotify_init = true
opens other = false

pub has : ℕ → List ℕ → Bool
has f [] = false
has f (g ∷ gs) = if f == g then true else has f gs

pub erase : ℕ → List ℕ → List ℕ
erase f [] = []
erase f (g ∷ gs) = if f == g then erase f gs else g ∷ erase f gs

-- The open descriptors behind a call.
pub closes : Call → List ℕ → List ℕ
closes (close (some f)) open_fds = erase f open_fds
closes other open_fds = open_fds

pub add : Result → List ℕ → List ℕ
add (failed e) open_fds = open_fds
add (returned n) open_fds = n ∷ open_fds

-- close(2) gives the descriptor free also where it fails.
pub step : Call → Result → List ℕ → List ℕ
step c r open_fds = if opens c then add r open_fds else closes c open_fds

pub IsOpen : List ℕ → Fd → Type 0
IsOpen open_fds none = ⊥
IsOpen open_fds (some f) = has f open_fds ≡ true

-- Each descriptor that a call is given is open.
pub IsOwned : Call → List ℕ → Type 0
IsOwned c open_fds = All (IsOpen open_fds) (uses c)

-- Where a program ends with 0, it has closed what it opened.
pub IsClean : End → List ℕ → Type 0
IsClean (exited (some zero)) open_fds = open_fds ≡ []
IsClean e open_fds = Unit {0}

own : (f : ℕ) (open_fds : List ℕ) → IsOpen (f ∷ open_fds) (some f)
unfolding IsOpen has
own f open_fds = ground (arith, ==_refl f)

still : (n f : ℕ) (open_fds : List ℕ) → IsOpen open_fds (some f) → IsOpen (n ∷ open_fds) (some f)
unfolding IsOpen has
still n f open_fds h = ground arith

accepted-IsOwned :
    (r : Result) (p : Prog) (f : ℕ) (s : List ℕ)
    → ((t : List ℕ) → IsOpen t (some f) → Checked step IsOwned IsClean t p)
    → IsOpen s (some f)
    → Checked step IsOwned IsClean (add r s) (Unix.accepted r p)
unfolding Unix.accepted IsOwned uses IsClean step opens closes add
accepted-IsOwned (failed e) p f s k h = k s h
accepted-IsOwned (returned zero) p f s k h = k (0 ∷ s) (still 0 f s h)
accepted-IsOwned (returned (suc n)) p f s k h = (tt, λ r. k (suc n ∷ s) (still (suc n) f s h))

serve-IsOwned :
    (n f : ℕ) (s : List ℕ)
    → IsOpen s (some f)
    → Checked step IsOwned IsClean s (Unix.serve n (some f))
unfolding Unix.serve IsOwned uses IsClean step opens
serve-IsOwned zero f s h = tt
serve-IsOwned (suc n) f s h =
    ((h, tt), λ r. accepted-IsOwned r (Unix.serve n (some f)) f s (λ t k. serve-IsOwned n f t k) h)

send_all-IsOwned :
    (n f : ℕ) (s : List ℕ)
    → IsOpen s (some f)
    → Checked step IsOwned IsClean s (Unix.send_all n (some f))
unfolding Unix.send_all IsOwned uses IsClean step opens closes
send_all-IsOwned zero f s h = tt
send_all-IsOwned (suc n) f s h = ((h, tt), λ r. (tt, λ r'. (tt, λ r''. send_all-IsOwned n f s h)))

-- A call that opens nothing, of which a failure ends the program with -1.
or_exit-IsOwned :
    (r : Result) (p : Prog) (s : List ℕ)
    → Checked step IsOwned IsClean s p
    → Checked step IsOwned IsClean s (or_exit r none p)
unfolding or_exit IsOwned uses IsClean
or_exit-IsOwned (returned n) p s h = h
or_exit-IsOwned (failed e) p s h = (tt, λ r. tt)

-- A socket, which the program ends without.
module _ (p : Fd → Prog) (s : List ℕ)
    (next : (f : ℕ) → Checked step IsOwned IsClean (f ∷ s) (p (some f))) where
  opened-IsOwned :
      (r : Result) → Checked step IsOwned IsClean (add r s) (or_exit r none (p (fd_of r)))
  unfolding or_exit IsOwned uses IsClean add fd_of
  opened-IsOwned (returned n) = next n
  opened-IsOwned (failed e) = (tt, λ r. tt)

serve_on-IsOwned : (n f : ℕ) → Checked step IsOwned IsClean (f ∷ []) (Unix.serve_on n (some f))
unfolding Unix.serve_on IsOwned uses step opens closes
serve_on-IsOwned n f =
    let h : IsOpen (f ∷ []) (some f) = own f [] in
    (
      (h, tt),
      λ b.
          or_exit-IsOwned b _ (f ∷ [])
            ((h, tt), λ l. or_exit-IsOwned l _ (f ∷ []) (serve-IsOwned n f (f ∷ []) h)),
    )

send_on-IsOwned :
    (memory : List ℕ) (n f : ℕ)
    → Checked step IsOwned IsClean (f ∷ []) (Unix.send_on memory n (some f))
unfolding Unix.send_on IsOwned uses step opens closes
send_on-IsOwned memory n f =
    let h : IsOpen (f ∷ []) (some f) = own f [] in
    (
      (h, tt),
      λ b.
          or_exit-IsOwned b _ (f ∷ [])
            ((h, tt), λ c. or_exit-IsOwned c _ (f ∷ []) (send_all-IsOwned n f (f ∷ []) h)),
    )

erase_self : (f : ℕ) → erase f (f ∷ []) ≡ []
unfolding erase
erase_self f = ground (arith, ==_refl f)

leave-IsOwned : (f : ℕ) → Checked step IsOwned IsClean (f ∷ []) (Multicast.leave (some f))
unfolding Multicast.leave IsOwned uses IsClean step opens closes
leave-IsOwned f = (tt, λ r. ((own f [], tt), λ r'. erase_self f))

sent-IsOwned :
    (r : Result) (f : ℕ) (p : Prog)
    → Checked step IsOwned IsClean (f ∷ []) p
    → Checked step IsOwned IsClean (f ∷ []) (Multicast.sent r (some f) p)
unfolding Multicast.sent
sent-IsOwned (failed e) f p h = leave-IsOwned f
sent-IsOwned (returned k) f p h = h

sends-IsOwned : (n f : ℕ) → Checked step IsOwned IsClean (f ∷ []) (Multicast.send_all n (some f))
unfolding Multicast.send_all IsOwned uses IsClean step opens closes
sends-IsOwned zero f = tt
sends-IsOwned (suc n) f = ((own f [], tt), λ r. sent-IsOwned r f _ (sends-IsOwned n f))

received-IsOwned :
    (r : Result) (f : ℕ) (p : Prog)
    → Checked step IsOwned IsClean (f ∷ []) p
    → Checked step IsOwned IsClean (f ∷ []) (Multicast.received r (some f) p)
unfolding Multicast.received IsOwned uses step opens closes
received-IsOwned (failed e) f p h = leave-IsOwned f
received-IsOwned (returned k) f p h = (tt, λ r. h)

receives-IsOwned :
    (n f : ℕ) → Checked step IsOwned IsClean (f ∷ []) (Multicast.receive_all n (some f))
unfolding Multicast.receive_all IsOwned uses IsClean step opens closes
receives-IsOwned zero f = tt
receives-IsOwned (suc n) f = ((own f [], tt), λ r. received-IsOwned r f _ (receives-IsOwned n f))

receive_on-IsOwned :
    (n f : ℕ) → Checked step IsOwned IsClean (f ∷ []) (Multicast.receive_on n (some f))
unfolding Multicast.receive_on IsOwned uses step opens closes
receive_on-IsOwned n f = (
  (own f [], tt),
  λ m.
      or_exit-IsOwned m _ (f ∷ [])
        ((own f [], tt), λ b. or_exit-IsOwned b _ (f ∷ []) (receives-IsOwned n f)),
)

-- The programs of set/abstractunix and set/muticast, with the passes of their loops.
pub data Datagrams : Prog → Type 0 where
  uds_service : (n : ℕ) → Datagrams (Unix.service n)
  uds_client : (memory : List ℕ) (n : ℕ) → Datagrams (Unix.client memory n)
  group_server : (n : ℕ) → Datagrams (Multicast.server n)
  group_client : (n : ℕ) → Datagrams (Multicast.client n)

program-IsOwned : {p : Prog} → Datagrams p → Checked step IsOwned IsClean [] p
unfolding Unix.service Unix.client Multicast.server Multicast.client IsOwned uses step opens closes
program-IsOwned (uds_service n) = (tt, opened-IsOwned (Unix.serve_on n) [] (serve_on-IsOwned n))
program-IsOwned (uds_client memory n) =
    (tt, opened-IsOwned (Unix.send_on memory n) [] (send_on-IsOwned memory n))
program-IsOwned (group_server n) = (tt, opened-IsOwned (Multicast.send_all n) [] (sends-IsOwned n))
program-IsOwned (group_client n) =
    (tt, opened-IsOwned (Multicast.receive_on n) [] (receive_on-IsOwned n))

-- The service and the client on abstract names and the sender and the receiver of a group, whatever
-- the system answers and over any number of passes: each call is given descriptors that an earlier
-- call has opened and none has closed, and a program that ends with 0 has closed all of them.
pub run-IsOwned :
    {p : Prog} (rs : List Result)
    → Datagrams p
    → Follows step IsOwned IsClean [] (run p rs).0 (run p rs).1
unfolding IsClean
run-IsOwned {p} rs d = run-Follows step IsOwned IsClean (λ s. tt) p [] rs (program-IsOwned d)
