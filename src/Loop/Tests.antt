-- ===== src/Loop/Tests.antt =====
-- Runs of `Loop` with three callbacks: 1 pushes 2 and 3, and 4 sets a timer.
use ex_netlink.Base.{ℕ, zero, suc, ◌≡◌, refl, some, List, [], ◌∷◌, ◌++◌, false, arith}
use ex_netlink.Loop.{Loop, Call, calls_run_at, calls_push_idle, calls_push_runable, new_loop, round}
use ex_netlink.Loop.Run.{due, later, flat, to_idle, to_runable, SetsNoTimer, IsSorted}
use ex_netlink.Loop.Timers.{round-ran}

abbrev body : ℕ → List Call
body (suc zero) = calls_push_idle 2 ∷ calls_push_runable 3 ∷ []
body _ = []

body-SetsNoTimer : (f : ℕ) → SetsNoTimer (body f)
body-SetsNoTimer zero = tt
body-SetsNoTimer (suc zero) = tt
body-SetsNoTimer (suc (suc f)) = tt

abbrev again : ℕ → List Call
again f = calls_run_at 50 f ∷ []

-- Timers at 10 and 30, and callback 5 pushed by `pushIdle`.
abbrev loaded : Loop
loaded = record new_loop {
  timer = record { timestamp = 10; runnable = 1 } ∷ record { timestamp = 30; runnable = 6 } ∷ [];
  runable = 5 ∷ [];
}

loaded-IsSorted : IsSorted loaded.timer
loaded-IsSorted = ((omega arith, tt), (tt, tt))

no_source : loaded.io_handle ≡ false
unfolding new_loop
no_source = refl

round-ran_example :
    let early = loaded.idle ++ due 20 loaded.timer in
    let late = loaded.runable ++ flat (λ f. to_runable (body f)) early in
    (k : Loop) × (round body (λ n. []) 15 20 loaded ≡ some k)
    × (k.ran ≡ loaded.ran ++ (early ++ late))
    × (k.idle ≡ flat (λ f. to_idle (body f)) (early ++ late))
    × (k.timer ≡ later 20 loaded.timer)
round-ran_example = round-ran body body-SetsNoTimer (λ n. []) 15 20 loaded no_source loaded-IsSorted

-- That round runs callbacks 1, 5 and 2, in this order.
round_order :
    due 20 loaded.timer ++ (loaded.runable ++ flat (λ f. to_runable (body f)) (due 20 loaded.timer))
    ≡ 1 ∷ 5 ∷ 2 ∷ []
round_order = refl
