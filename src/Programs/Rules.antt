-- ===== src/Programs/Rules.antt =====
-- What holds along every run of a program, shown on its tree.
use ex_netlink.Base.{List, [], ◌∷◌}
use ex_netlink.Sockops.Calls.{Result}
use ex_netlink.Programs.Sys.{
  Call, Prog, exits, enters, pauses, call, Event, End, exited, entered, paused, waits, run,
}

-- A state that the calls change, what each call needs of it, and what must hold where the program ends.
module _ {S : Type 0} (step : Call → Result → S → S) (Allowed : Call → S → Type 0)
    (Final : End → S → Type 0) where
  -- Along a trace from a state, each call is allowed, and its end is as it must be.
  abbrev pub Follows : S → List Event → End → Type 0
  Follows s [] e = Final e s
  Follows s ((c, r) ∷ t) e = Allowed c s × Follows (step c r s) t e

  -- The same of a program, for every answer.
  abbrev pub Checked : S → Prog → Type 0
  Checked s (exits c) = Final (exited c) s
  Checked s (enters fds) = Final (entered fds) s
  Checked s pauses = Final paused s
  Checked s (call c k) = Allowed c s × ((r : Result) → Checked (step c r s) (k r))

  pub run-Follows :
      ((s : S) → Final waits s)
      → (p : Prog) (s : S) (rs : List Result) → Checked s p
      → Follows s (run p rs).0 (run p rs).1
  unfolding run
  run-Follows w (exits c) s rs h = h
  run-Follows w (enters fds) s rs h = h
  run-Follows w pauses s rs h = h
  run-Follows w (call c k) s [] h = w s
  run-Follows w (call c k) s (r ∷ rs) h = (h.0, run-Follows w (k r) (step c r s) rs (h.1 r))
