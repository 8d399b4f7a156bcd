-- ===== src/ThreadPool/Start/Returns.antt =====
-- The constructor of `Thread` returns, and only after the new thread has counted the latch down.
use ex_netlink.Atomic.Fair.{rounds, run_steps}
use ex_netlink.Base.{ℕ, ◌+◌, ◌*◌, ◌≤◌, ◌≡◌, refl, subst, ◌⊎◌, inl, inr, arith, List, All, length}
use ex_netlink.ThreadPool.Start.{
  returned, Runner, unstarted, names, locks, downs, unlocks, calls, finished, new_thread, Starter,
  start_step, run_start,
}
use ex_netlink.ThreadPool.Start.Inv.{MakerOk, RunnerOk, InvAt}
use ex_netlink.ThreadPool.Start.Moves.{left}
use ex_netlink.ThreadPool.Start.Rounds.{
  Both, wake_ups, run-Inv, rounds-finish, maker_end, runner_end,
}

-- Where the constructor has returned, `run` has counted the latch down, and so set the name before.
abbrev pub IsNamed : Runner → Type 0
IsNamed r = (r ≡ unlocks) ⊎ (r ≡ calls) ⊎ (r ≡ finished)

down-IsNamed : (r : Runner) (count owner : ℕ) → RunnerOk count owner r → count ≡ 0 → IsNamed r
down-IsNamed unstarted count owner v h = absurd (omega arith)
down-IsNamed names count owner v h = absurd (omega arith)
down-IsNamed locks count owner v h = absurd (omega arith)
down-IsNamed downs count owner v h = absurd (omega arith)
down-IsNamed unlocks count owner v h = inl refl
down-IsNamed calls count owner v h = inr (inl refl)
down-IsNamed finished count owner v h = inr (inr refl)

new-Inv : InvAt new_thread
unfolding new_thread
new-Inv = ground arith

-- In whatever order the two threads step, and with wake-ups without a notification wherever the
-- constructor is blocked, the constructor of `Thread` has returned only if the new
-- thread has set its name and counted the latch down.
pub run_start-IsNamed :
    (ts : List Starter)
    → (run_start ts new_thread).maker ≡ returned
    → IsNamed (run_start ts new_thread).runner
unfolding run_start
run_start-IsNamed ts h =
    let s = run_steps start_step ts new_thread in
    let v = run-Inv ts new_thread new-Inv in
    let ok : MakerOk s.count s.owner returned = subst (MakerOk s.count s.owner) h v.maker_ok in
    down-IsNamed s.runner s.count s.owner v.runner_ok ok.1

-- Rounds in each of which both threads step at least once, in any order and however often, with
-- wake-ups without a notification anywhere between the steps: after 13 rounds, and three more for each
-- such wake-up, the constructor of `Thread` has returned, and the new thread has called its function.
-- The notification is not lost.
pub run_start-finishes :
    (tss : List (List Starter))
    → All Both tss
    → 13 + 3 * wake_ups (rounds tss) ≤ length tss
    → ((run_start (rounds tss) new_thread).maker ≡ returned)
      × ((run_start (rounds tss) new_thread).runner ≡ finished)
unfolding run_start new_thread
run_start-finishes tss both h =
    let s = run_steps start_step (rounds tss) new_thread in
    let end : left s ≡ 0 = rounds-finish tss new_thread both new-Inv h in
    (maker_end s.maker s.count (omega (arith, end)), runner_end s.runner (omega (arith, end)))
