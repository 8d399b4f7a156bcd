-- ===== src/TimeService/Tests.antt =====
-- The first process serves a connection, then its child serves another one.
use ex_netlink.Base.{◌≡◌, refl, some, List, [], ◌∷◌, true, false}
use ex_netlink.TimeService.{
  Turn, not_forked, answered, new_server, run, turn, turn_in, accepts, forks, client, client_loop,
  reads, read_0, connected, received, client_will_close,
}
use ex_netlink.TimeService.Kept.{Kept, run-Kept}

abbrev turns : List Turn
turns =
    record { who = 0; accepted = true; child = answered }
    ∷ record { who = 0; accepted = false; child = not_forked }
    ∷ record { who = 1; accepted = true; child = answered }
    ∷ []

run-Kept_example : Kept (run new_server turns)
run-Kept_example = run-Kept turns

three_processes : (run new_server turns).processes ≡ (0 ∷ []) ∷ (1 ∷ 0 ∷ []) ∷ (1 ∷ 0 ∷ []) ∷ []
unfolding run turn turn_in accepts forks new_server
three_processes = refl

client_closes :
    client (some 3) true (reads (49 ∷ []) ∷ read_0 ∷ [])
    ≡ (connected ∷ received (49 ∷ []) ∷ client_will_close ∷ [], some true)
unfolding client client_loop
client_closes = refl
