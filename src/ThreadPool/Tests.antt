-- ===== src/ThreadPool/Tests.antt =====
-- A run of a pool of one worker, with one task and a stop, and of the start of a thread.
use ex_netlink.Base.{
  ℕ, zero, suc, List, [], ◌∷◌, All, ◌+◌, ◌≡◌, refl, ◌⊎◌, false, arith, total, length,
}
use ex_netlink.ThreadPool.{
  checking, ThreadPool, new_pool, push, wake_at, pass, bind_run, is_waiting, pushes, notify_one,
  works, Reach, start, next,
}
use ex_netlink.Atomic.Fair.{rounds}
use ex_netlink.ThreadPool.Start.{
  returned, finished, new_thread, maker_step, runner_step, Starter, steps_maker, steps_runner,
  wakes_up, start_step, run_start,
}
use ex_netlink.ThreadPool.Start.Returns.{IsNamed, run_start-IsNamed, run_start-finishes}
use ex_netlink.ThreadPool.Start.Rounds.{Both}
use ex_netlink.ThreadPool.Inv.{no_lost_wakeup, tasks_conserved, is_active, is_exited, is_task, runs}

-- The worker waits; task 7 is pushed and the notification delivered; the worker takes the task.
abbrev asleep : ThreadPool
asleep = bind_run (new_pool 1) 0 checking

abbrev told : ThreadPool
told = record (wake_at (push asleep 7) 0) { owed_one = 0 }

abbrev busy : ThreadPool
busy = bind_run told 0 checking

asleep-Reach : Reach 1 asleep
unfolding new_pool
asleep-Reach = next start (works 0 checking refl)

busy-Reach : Reach 1 busy
unfolding new_pool push wake_at bind_run pass
busy-Reach =
    next (next (next asleep-Reach (pushes 7)) (notify_one 0 (omega arith) refl))
      (works 0 checking refl)

tasks_conserved_example :
    total (is_task 7) busy.pushed
    ≡ total (is_task 7) busy.done + total (runs 7) busy.trds + total (is_task 7) busy.task
tasks_conserved_example = tasks_conserved busy-Reach 7

quiet : (asleep.owed_one ≡ 0) × (asleep.owed_all ≡ 0) × (total is_active asleep.trds ≡ 0)
unfolding bind_run pass new_pool
quiet = (refl, refl, refl)

no_lost_wakeup_example :
    ((total is_waiting asleep.trds ≡ length asleep.trds)
      × (length asleep.task ≡ 0)
      × (asleep.stoped ≡ false))
    ⊎ (total is_exited asleep.trds ≡ length asleep.trds)
no_lost_wakeup_example = no_lost_wakeup asleep-Reach quiet.0 quiet.1 quiet.2

-- The constructor blocks before the new thread counts down, and wakes once without a notification.
abbrev blocked_first : List Starter
blocked_first =
    steps_maker ∷ steps_maker ∷ steps_maker ∷ wakes_up ∷ steps_maker ∷ steps_maker ∷ steps_runner
    ∷ steps_runner ∷ steps_runner ∷ steps_runner ∷ steps_maker ∷ steps_maker ∷ steps_maker ∷ []

blocked_first_returns : (run_start blocked_first new_thread).maker ≡ returned
unfolding run_start start_step maker_step runner_step new_thread
blocked_first_returns = refl

run_start-IsNamed_example : IsNamed (run_start blocked_first new_thread).runner
run_start-IsNamed_example = run_start-IsNamed blocked_first blocked_first_returns

abbrev in_turn : List Starter
in_turn = steps_runner ∷ steps_maker ∷ []

in_turn-Both : Both in_turn
in_turn-Both = record {
  maker_in = (steps_runner ∷ [], [], refl);
  runner_in = ([], steps_maker ∷ [], refl);
}

abbrev rounds_of : ℕ → List (List Starter)
rounds_of zero = []
rounds_of (suc k) = in_turn ∷ rounds_of k

rounds_of-Both : (k : ℕ) → All Both (rounds_of k)
rounds_of-Both zero = tt
rounds_of-Both (suc k) = (in_turn-Both, rounds_of-Both k)

-- In the second round, the constructor wakes without a notification.
abbrev woken : List Starter
woken = steps_maker ∷ steps_maker ∷ wakes_up ∷ steps_runner ∷ []

woken-Both : Both woken
woken-Both = record {
  maker_in = ([], steps_maker ∷ wakes_up ∷ steps_runner ∷ [], refl);
  runner_in = (steps_maker ∷ steps_maker ∷ wakes_up ∷ [], [], refl);
}

run_start-finishes_example :
    ((run_start (rounds (in_turn ∷ woken ∷ rounds_of 14)) new_thread).maker ≡ returned)
    × ((run_start (rounds (in_turn ∷ woken ∷ rounds_of 14)) new_thread).runner ≡ finished)
run_start-finishes_example =
    run_start-finishes (in_turn ∷ woken ∷ rounds_of 14)
      (in_turn-Both, (woken-Both, rounds_of-Both 14)) (omega arith)
