-- ===== src/ThreadPool/Start/Moves.antt =====
-- Each step of the start of a `Thread` makes a move, or its thread waits or has ended.
use ex_netlink.Base.{
  ℕ, ◌+◌, ◌-◌, ◌≤◌, ◌<◌, ◌≡◌, ◌≢◌, refl, ◌⊎◌, inl, inr, Bool-cases, arith, ◌==◌, if◌then◌else◌,
}
use ex_netlink.ThreadPool.Start.{
  Maker, starts, enters, checks, blocked, wakes, leaves, returned, Runner, unstarted, names, locks,
  downs, unlocks, calls, finished, Start, maker_step, notified, runner_step,
}
use ex_netlink.ThreadPool.Start.Inv.{runner_started, Inv, InvAt}

-- How many moves the constructor has left at most, while the latch is up and once it is down.
abbrev pub maker_left : ℕ → Maker → ℕ
maker_left count starts = 8
maker_left count enters = if count == 0 then 3 else 7
maker_left count checks = if count == 0 then 2 else 6
maker_left count blocked = 5
maker_left count wakes = if count == 0 then 3 else 7
maker_left count leaves = 1
maker_left count returned = 0

abbrev pub runner_left : Runner → ℕ
runner_left unstarted = 5
runner_left names = 5
runner_left locks = 4
runner_left downs = 3
runner_left unlocks = 2
runner_left calls = 1
runner_left finished = 0

abbrev pub left : Start → ℕ
left s = maker_left s.count s.maker + runner_left s.runner

abbrev pub MakerStuck : ℕ → Maker → Type 0
MakerStuck owner m = (m ≡ returned) ⊎ (m ≡ blocked) ⊎ ((owner ≢ 0) × ((m ≡ enters) ⊎ (m ≡ wakes)))

abbrev pub RunnerStuck : ℕ → Runner → Type 0
RunnerStuck owner r = (r ≡ finished) ⊎ (r ≡ unstarted) ⊎ ((owner ≢ 0) × (r ≡ locks))

not_started : (r : Runner) → 0 ≡ runner_started r → runner_left r ≡ 5
not_started unstarted h = refl
not_started names h = absurd (omega arith)
not_started locks h = absurd (omega arith)
not_started downs h = absurd (omega arith)
not_started unlocks h = absurd (omega arith)
not_started calls h = absurd (omega arith)
not_started finished h = absurd (omega arith)

downs-move :
    (m : Maker) (count owner : ℕ)
    → Inv m downs count owner
    → left (record {
      maker = if count - 1 == 0 then notified m else m;
      runner = unlocks;
      count = count - 1;
      owner = owner;
    })
      < maker_left count m + 3
downs-move starts count owner v = absurd (omega (arith, v.together))
downs-move enters count owner v = ground (arith, v)
downs-move checks count owner v = ground (arith, v)
downs-move blocked count owner v = ground (arith, v)
downs-move wakes count owner v = ground (arith, v)
downs-move leaves count owner v = ground (arith, v)
downs-move returned count owner v = ground (arith, v)

-- A step makes a move, or leaves the state and its thread is stuck.
pub maker-move :
    (m : Maker) (r : Runner) (count owner : ℕ)
    → Inv m r count owner
    → (left (maker_step (record { maker = m; runner = r; count = count; owner = owner }) m)
        < maker_left count m + runner_left r)
      ⊎ ((maker_step (record { maker = m; runner = r; count = count; owner = owner }) m
            ≡ record { maker = m; runner = r; count = count; owner = owner })
          × MakerStuck owner m)
unfolding maker_step
maker-move starts r count owner v = inl (ground (arith, not_started r v.together))
maker-move enters r count owner v = elim (Bool-cases (owner == 0)) [
  | inl h ↦ inl (rw h (ground arith))
  | inr h ↦ inr (rw h refl, ground arith)
]
maker-move checks r count owner v = inl (ground arith)
maker-move blocked r count owner v = inr (refl, inr (inl refl))
maker-move wakes r count owner v = elim (Bool-cases (owner == 0)) [
  | inl h ↦ inl (rw h (ground (arith, v)))
  | inr h ↦ inr (rw h refl, ground arith)
]
maker-move leaves r count owner v = inl (ground arith)
maker-move returned r count owner v = inr (refl, inl refl)

pub runner-move :
    (r : Runner) (m : Maker) (count owner : ℕ)
    → Inv m r count owner
    → (left (runner_step (record { maker = m; runner = r; count = count; owner = owner }) r)
        < maker_left count m + runner_left r)
      ⊎ ((runner_step (record { maker = m; runner = r; count = count; owner = owner }) r
            ≡ record { maker = m; runner = r; count = count; owner = owner })
          × RunnerStuck owner r)
unfolding runner_step
runner-move unstarted m count owner v = inr (refl, inr (inl refl))
runner-move names m count owner v = inl (ground arith)
runner-move locks m count owner v = elim (Bool-cases (owner == 0)) [
  | inl h ↦ inl (rw h (ground arith))
  | inr h ↦ inr (rw h refl, ground arith)
]
runner-move downs m count owner v = inl (downs-move m count owner v)
runner-move unlocks m count owner v = inl (ground arith)
runner-move calls m count owner v = inl (ground arith)
runner-move finished m count owner v = inr (refl, inl refl)

-- A wake-up without a notification costs two moves at most.
pub notified-move :
    (m : Maker) (r : Runner) (count owner : ℕ)
    → (maker_left count (notified m) ≤ maker_left count m + 2) × ((notified m ≡ m) ⊎ (m ≡ blocked))
notified-move starts r count owner = (omega arith, inl refl)
notified-move enters r count owner = (omega arith, inl refl)
notified-move checks r count owner = (omega arith, inl refl)
notified-move blocked r count owner = (ground arith, inr refl)
notified-move wakes r count owner = (omega arith, inl refl)
notified-move leaves r count owner = (omega arith, inl refl)
notified-move returned r count owner = (omega arith, inl refl)

pub Stuck-left :
    (s : Start) → InvAt s → MakerStuck s.owner s.maker → RunnerStuck s.owner s.runner → left s ≡ 0
Stuck-left s v a b = ground (arith, v)
