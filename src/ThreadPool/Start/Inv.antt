-- ===== src/ThreadPool/Start/Inv.antt =====
-- What every reachable state of the start of a `Thread` has in common.
use ex_netlink.Base.{ℕ, ◌≤◌, ◌≡◌, ◌≢◌, arith}
use ex_netlink.ThreadPool.Start.{
  Maker, starts, enters, checks, blocked, wakes, leaves, returned, Runner, unstarted, names, locks,
  downs, unlocks, calls, finished, Start, maker_step, runner_step, Starter, steps_maker,
  steps_runner, wakes_up, notified, start_step,
}

-- Whether the thread is started, as each of the two sees it.
abbrev pub maker_started : Maker → ℕ
maker_started starts = 0
maker_started enters = 1
maker_started checks = 1
maker_started blocked = 1
maker_started wakes = 1
maker_started leaves = 1
maker_started returned = 1

abbrev pub runner_started : Runner → ℕ
runner_started unstarted = 0
runner_started names = 1
runner_started locks = 1
runner_started downs = 1
runner_started unlocks = 1
runner_started calls = 1
runner_started finished = 1

abbrev pub MakerOk : ℕ → ℕ → Maker → Type 0
MakerOk count owner starts = owner ≢ 1
MakerOk count owner enters = owner ≢ 1
MakerOk count owner checks = owner ≡ 1
MakerOk count owner blocked = (owner ≢ 1) × (count ≡ 1)
MakerOk count owner wakes = owner ≢ 1
MakerOk count owner leaves = (owner ≡ 1) × (count ≡ 0)
MakerOk count owner returned = (owner ≢ 1) × (count ≡ 0)

abbrev pub RunnerOk : ℕ → ℕ → Runner → Type 0
RunnerOk count owner unstarted = (owner ≢ 2) × (count ≡ 1)
RunnerOk count owner names = (owner ≢ 2) × (count ≡ 1)
RunnerOk count owner locks = (owner ≢ 2) × (count ≡ 1)
RunnerOk count owner downs = (owner ≡ 2) × (count ≡ 1)
RunnerOk count owner unlocks = (owner ≡ 2) × (count ≡ 0)
RunnerOk count owner calls = (owner ≢ 2) × (count ≡ 0)
RunnerOk count owner finished = (owner ≢ 2) × (count ≡ 0)

-- What every reachable state has in common.
pub record Inv (maker : Maker) (runner : Runner) (count owner : ℕ) : Type 0 where
  pub maker_ok : MakerOk count owner maker
  pub runner_ok : RunnerOk count owner runner
  pub owned : owner ≤ 2
  pub together : maker_started maker ≡ runner_started runner

abbrev pub InvAt : Start → Type 0
InvAt s = Inv s.maker s.runner s.count s.owner

maker-Inv :
    (m : Maker) (r : Runner) (count owner : ℕ)
    → Inv m r count owner
    → InvAt (maker_step (record { maker = m; runner = r; count = count; owner = owner }) m)
unfolding maker_step
maker-Inv starts r count owner v = ground arith
maker-Inv enters r count owner v = ground arith
maker-Inv checks r count owner v = ground arith
maker-Inv blocked r count owner v = v
maker-Inv wakes r count owner v = ground arith
maker-Inv leaves r count owner v = ground arith
maker-Inv returned r count owner v = v

runner-Inv :
    (r : Runner) (m : Maker) (count owner : ℕ)
    → Inv m r count owner
    → InvAt (runner_step (record { maker = m; runner = r; count = count; owner = owner }) r)
unfolding runner_step
runner-Inv unstarted m count owner v = v
runner-Inv names m count owner v = ground arith
runner-Inv locks m count owner v = ground arith
runner-Inv downs m count owner v = ground arith
runner-Inv unlocks m count owner v = ground arith
runner-Inv calls m count owner v = ground arith
runner-Inv finished m count owner v = v

notified-Inv :
    (m : Maker) (r : Runner) (count owner : ℕ)
    → Inv m r count owner
    → Inv (notified m) r count owner
notified-Inv starts r count owner v = v
notified-Inv enters r count owner v = v
notified-Inv checks r count owner v = v
notified-Inv blocked r count owner v = ground arith
notified-Inv wakes r count owner v = v
notified-Inv leaves r count owner v = v
notified-Inv returned r count owner v = v

pub start_step-Inv : (t : Starter) (s : Start) → InvAt s → InvAt (start_step t s)
unfolding start_step
start_step-Inv steps_maker s v = maker-Inv s.maker s.runner s.count s.owner v
start_step-Inv steps_runner s v = runner-Inv s.runner s.maker s.count s.owner v
start_step-Inv wakes_up s v = notified-Inv s.maker s.runner s.count s.owner v
