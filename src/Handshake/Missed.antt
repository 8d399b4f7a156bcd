-- ===== src/Handshake/Missed.antt =====
-- A notification between a client's look at the flag and its block is lost: the server stores the
-- flag and notifies without the mutex.
use ex_netlink.Base.{
  ℕ, zero, suc, Option, none, some, List, [], ◌∷◌, true, ◌<◌, ◌≡◌, ◌≢◌, refl, arith, All,
}
use ex_netlink.Handshake.Prog.{Fd, Host, Prog, reports}
use ex_netlink.Handshake.Threads.{blocked, perform, resume, Event, runs, step, run_events, process}
use ex_netlink.Handshake.Api
use ex_netlink.Handshake.Asleep.{Silent, NotSpurious, run-Missed, reports-Silent, asserts-Silent}

-- The client of thread 2 sees the flag unset, the server stores the flag and notifies, the client
-- blocks.
abbrev pub missed : List Event
missed =
    runs 0 none 0
    ∷ runs 0 none 0
    ∷ runs 0 none 0
    ∷ runs 0 none 0
    ∷ runs 0 none 0
    ∷ runs 2 (some 4) 0
    ∷ runs 2 (some 0) 0
    ∷ runs 2 none 0
    ∷ runs 2 none 0
    ∷ runs 1 (some 3) 0
    ∷ runs 1 (some 0) 0
    ∷ runs 1 (some 0) 0
    ∷ runs 1 (some 0) 0
    ∷ runs 1 (some 0) 0
    ∷ runs 1 none 0
    ∷ runs 1 none 0
    ∷ runs 2 none 0
    ∷ []

abbrev shown :
    (a : Option ℕ) (line : ℕ) (k : Option ℕ → Prog)
    → ((b : Option ℕ) → Silent 2 0 6 (k b))
    → Silent 2 0 6 (reports a line k)
shown = reports-Silent 2 0 6

connected_Silent : (fd a : Option ℕ) → Silent 2 0 6 (Api.client_connected fd a)
unfolding Api.client_connected
connected_Silent fd none = λ _. tt
connected_Silent fd (some e) = λ se. shown se 116 _ λ _. λ _. tt

client_Silent : (h l : Host) → Silent 2 0 6 (Api.client h l)
unfolding Api.client
client_Silent h l =
    λ fd. shown fd 87 _ λ _. λ e. shown e 101 _ λ _. λ _. λ _. λ _. λ c. connected_Silent fd c

serve_Silent : (n : ℕ) (fd : Fd) → Silent 2 0 6 (Api.serve n fd)
unfolding Api.serve
serve_Silent zero fd = tt
serve_Silent (suc n) fd = λ cd. shown cd 54 _ λ _. λ e. shown e 59 _ λ _. λ named.
    asserts-Silent 2 0 6 named _
      λ _. λ _. λ peer. asserts-Silent 2 0 6 peer _ λ _. λ _. λ _. λ _. serve_Silent n fd

missed-progs :
    (n j : ℕ) → j < 6 → j ≢ 2 → Silent 2 0 6 ((run_events missed (process (Api.threads n))).progs j)
unfolding process step resume perform Api.threads Api.main Api.server Api.client
missed-progs n zero l h = tt
missed-progs n (suc zero) l h = serve_Silent n (some 3)
missed-progs n (suc (suc zero)) l h = absurd (h refl)
missed-progs n (suc (suc (suc zero))) l h = client_Silent _ _
missed-progs n (suc (suc (suc (suc zero)))) l h = client_Silent _ _
missed-progs n (suc (suc (suc (suc (suc zero))))) l h = client_Silent _ _
missed-progs n (suc (suc (suc (suc (suc (suc j)))))) l h = absurd (omega arith)

missed-asleep : (n : ℕ) → (run_events missed (process (Api.threads n))).phases 2 ≡ blocked 0
unfolding process step resume perform Api.threads Api.main Api.server Api.client
missed-asleep n = refl

-- In set/api/main.cpp: after an order of steps in which a client sees the flag unset, the server sets
-- it and notifies, and the client then blocks, the flag is set and the client stays blocked in every
-- continuation by steps of the six threads, and wake-ups without a notification of the other ones.
pub run_events-lost_wakeup :
    (n : ℕ) (es : List Event)
    → All (NotSpurious 2 0 6) es
    → ((run_events missed (process (Api.threads n))).flags 0 ≡ true)
      × ((run_events es (run_events missed (process (Api.threads n)))).phases 2 ≡ blocked 0)
unfolding process step resume perform Api.threads Api.main Api.server Api.client
run_events-lost_wakeup n es h = (
  refl,
  (run-Missed 2 0 6 es (run_events missed (process (Api.threads n))) h
      (record { asleep = missed-asleep n; silent = missed-progs n })).asleep,
)
