-- ===== src/Handshake/Listens.antt =====
-- In each program that listens, every `connect` comes after the server's `listen`.
use ex_netlink.Base.{ℕ, Option, List, Bool, true, false, refl, All}
use ex_netlink.Handshake.Prog.{Sys, Host, connect, listen, Prog, reports}
use ex_netlink.Handshake.Threads.{Event, run_events, process}
use ex_netlink.Handshake.Order.{Ordered, Careful, run_events-Ordered}
use ex_netlink.Handshake.Rules.{reports-Careful, sure-Careful}
use ex_netlink.Handshake.Api
use ex_netlink.Handshake.Rest2
use ex_netlink.Handshake.Rest3
use ex_netlink.Handshake.Sigurg

abbrev pub is_listen : ℕ → Sys → Bool
is_listen line (listen fd n) = true
is_listen line s = false

abbrev pub is_connect : ℕ → Sys → Bool
is_connect line (connect fd h n) = true
is_connect line s = false

abbrev Meets : Prog → Type 0
Meets = Careful is_listen is_connect 0 false

-- A `printf` on an error keeps a function from meeting nothing.
abbrev passes :
    (a : Option ℕ) (line : ℕ) (k : Option ℕ → Prog)
    → ((b : Option ℕ) → Meets (k b))
    → Meets (reports a line k)
passes a line k h = reports-Careful is_listen is_connect 0 false a line k (λ t. t) h

api_server : (n : ℕ) → Meets (Api.server n)
unfolding Api.server
api_server n = (
  λ t. t,
  λ fd. passes fd 27 _ λ _. (
    λ t. t,
    λ _. (
      λ t. t,
      λ _. (
        λ t. t,
        λ e. passes e 42 _ λ _. (λ t. t, λ l. sure-Careful is_listen is_connect 0 _ _ refl),
      ),
    ),
  ),
)

api_client : (h l : Host) → Meets (Api.client h l)
unfolding Api.client
api_client h l = (
  λ t. t,
  λ fd. passes fd 87 _ λ _. (
    λ t. t,
    λ e. passes e 101 _ λ _. λ _. λ _. λ _.
        (λ _. refl, λ c. sure-Careful is_listen is_connect 0 (Api.client_connected fd c) _ refl),
  ),
)

rest2_server : (n : ℕ) → Meets (Rest2.server n)
unfolding Rest2.server
rest2_server n = (
  λ t. t,
  λ fd. passes fd 71 _ λ _. (
    λ t. t,
    λ _. (
      λ t. t,
      λ e. passes e 86 _ λ _. (λ t. t, λ l. sure-Careful is_listen is_connect 0 _ _ refl),
    ),
  ),
)

rest2_client : Meets Rest2.client
unfolding Rest2.client
rest2_client = (
  λ t. t,
  λ fd. passes fd 29 _ λ _. (
    λ t. t,
    λ _. λ _. λ _.
        (λ _. refl, λ e. sure-Careful is_listen is_connect 0 (Rest2.client_connected fd e) _ refl),
  ),
)

rest3_server : (n : ℕ) → Meets (Rest3.server n)
unfolding Rest3.server
rest3_server n = (
  λ t. t,
  λ fd. passes fd 82 _ λ _. (
    λ t. t,
    λ _. (
      λ t. t,
      λ e. passes e 97 _ λ _. (λ t. t, λ l. sure-Careful is_listen is_connect 0 _ _ refl),
    ),
  ),
)

rest3_client : Meets Rest3.client
unfolding Rest3.client
rest3_client = (
  λ t. t,
  λ fd. passes fd 29 _ λ _. (
    λ t. t,
    λ _. λ _. λ _.
        (λ _. refl, λ e. sure-Careful is_listen is_connect 0 (Rest3.client_connected fd e) _ refl),
  ),
)

sigurg_server : (n : ℕ) → Meets (Sigurg.server n)
unfolding Sigurg.server
sigurg_server n = (
  λ t. t,
  λ fd. passes fd 37 _ λ _.
      (λ t. t, λ e. passes e 47 _ λ _. (λ t. t, λ l. sure-Careful is_listen is_connect 0 _ _ refl)),
)

sigurg_client : Meets Sigurg.client
unfolding Sigurg.client
sigurg_client = (
  λ t. t,
  λ fd. passes fd 83 _ λ _. (
    λ t. t,
    λ e. passes e 93 _ λ _. λ _. λ _. λ _.
        (λ _. refl, λ c. sure-Careful is_listen is_connect 0 (Sigurg.client_connected fd c) _ refl),
  ),
)

-- The programs whose server listens.
pub data Program : Type 0 where
  api rest2 rest3 sigurg : Program

abbrev pub threads_of : Program → ℕ → List Prog
threads_of api n = Api.threads n
threads_of rest2 n = Rest2.threads n
threads_of rest3 n = Rest3.threads n
threads_of sigurg n = Sigurg.threads n

threads_of-Meets : (g : Program) (n : ℕ) → All Meets (threads_of g n)
unfolding Api.threads Rest2.threads Rest3.threads Sigurg.threads Api.main Rest2.main Rest3.main
    Sigurg.main
threads_of-Meets api n = (
  λ _. λ _. λ _. λ _. λ _. tt,
  (api_server n, (api_client _ _, (api_client _ _, (api_client _ _, (api_client _ _, tt))))),
)
threads_of-Meets rest2 n = ((λ t. t, λ _. λ _. λ _. tt), (rest2_client, (rest2_server n, tt)))
threads_of-Meets rest3 n =
    ((λ t. t, λ e. passes e 133 _ λ _. λ _. λ _. tt), (rest3_client, (rest3_server n, tt)))
threads_of-Meets sigurg n = (λ _. λ _. tt, (sigurg_server n, (sigurg_client, tt)))

-- In each of the four programs whose server listens, whatever the order of the threads' steps, the
-- wake-ups and the answers of the system, every `connect` comes after a `listen` has returned.
pub run_events-connect_after_listen :
    (g : Program) (n : ℕ) (es : List Event)
    → Ordered is_listen is_connect (run_events es (process (threads_of g n))).log
run_events-connect_after_listen g n es =
    run_events-Ordered is_listen is_connect 0 (threads_of g n) es (threads_of-Meets g n)
