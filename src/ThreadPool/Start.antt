-- ===== src/ThreadPool/Start.antt =====
-- set/thread_pool/Thread.h and Count.h: the constructor of `Thread`, which waits until the new thread
-- has counted its latch down, as steps of the two threads.
pub mod Inv
pub mod Moves
pub mod Rounds
pub mod Returns
use ex_netlink.Atomic.Fair.{run_steps}
use ex_netlink.Base.{ℕ, ◌-◌, ◌==◌, if◌then◌else◌, List}

-- The constructor: before it starts the thread; before it locks the mutex of the latch; at its look at
-- the count; blocked inside `wait`, and woken, for whatever reason; before it unlocks; and behind it.
pub data Maker : Type 0 where
  starts enters checks blocked wakes leaves returned : Maker

-- `run`: not started; before it sets the name; before it locks the mutex; before it counts down and
-- notifies; before it unlocks; before it calls the function; and behind it.
pub data Runner : Type 0 where
  unstarted names locks downs unlocks calls finished : Runner

-- The two threads, `count_`, and who has the mutex: 0 for nobody, 1 for the constructor, 2 for `run`.
pub record Start : Type 0 where
  pub maker : Maker
  pub runner : Runner
  pub count : ℕ
  pub owner : ℕ

unfoldable pub new_thread : Start
new_thread = record { maker = starts; runner = unstarted; count = 1; owner = 0 }

unfoldable pub maker_step : Start → Maker → Start
maker_step s starts = record s { maker = enters; runner = names }
maker_step s enters = if s.owner == 0 then record s { maker = checks; owner = 1 } else s
maker_step s checks =
    if s.count == 0 then record s { maker = leaves } else record s { maker = blocked; owner = 0 }
maker_step s blocked = s
maker_step s wakes = if s.owner == 0 then record s { maker = checks; owner = 1 } else s
maker_step s leaves = record s { maker = returned; owner = 0 }
maker_step s returned = s

abbrev pub notified : Maker → Maker
notified starts = starts
notified enters = enters
notified checks = checks
notified blocked = wakes
notified wakes = wakes
notified leaves = leaves
notified returned = returned

unfoldable pub runner_step : Start → Runner → Start
runner_step s unstarted = s
runner_step s names = record s { runner = locks }
runner_step s locks = if s.owner == 0 then record s { runner = downs; owner = 2 } else s
runner_step s downs = record s {
  runner = unlocks;
  count = s.count - 1;
  maker = if s.count - 1 == 0 then notified s.maker else s.maker;
}
runner_step s unlocks = record s { runner = calls; owner = 0 }
runner_step s calls = record s { runner = finished }
runner_step s finished = s

-- A step of the constructor, one of `run`, or a wake-up of the constructor without a notification.
pub data Starter : Type 0 where
  steps_maker steps_runner wakes_up : Starter

unfoldable pub start_step : Starter → Start → Start
start_step steps_maker s = maker_step s s.maker
start_step steps_runner s = runner_step s s.runner
start_step wakes_up s = record s { maker = notified s.maker }

unfoldable pub run_start : List Starter → Start → Start
run_start ts s = run_steps start_step ts s
