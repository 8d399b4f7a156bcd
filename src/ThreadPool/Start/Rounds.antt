-- ===== src/ThreadPool/Start/Rounds.antt =====
-- The start of a `Thread` under schedules in rounds, with wake-ups without a notification between the
-- steps: each of them costs the system three rounds at most.
use ex_netlink.Atomic.Fair.{rounds, run_steps, run_steps-append}
use ex_netlink.Base.{
  ℕ, ◌+◌, ◌*◌, ◌≤◌, ◌<◌, ◌≡◌, refl, sym, subst, ap, ◌∙◌, ◌⊎◌, inl, inr, arith, List, [], ◌∷◌, ◌++◌,
  All, length, total, total-append, ℕ_discrete,
}
use ex_netlink.ThreadPool.Start.{
  Maker, starts, enters, checks, blocked, wakes, leaves, returned, Runner, unstarted, names, locks,
  downs, unlocks, calls, finished, Start, Starter, steps_maker, steps_runner, wakes_up, start_step,
}
use ex_netlink.ThreadPool.Start.Inv.{InvAt, start_step-Inv}
use ex_netlink.ThreadPool.Start.Moves.{
  maker_left, runner_left, left, MakerStuck, RunnerStuck, maker-move, runner-move, notified-move,
  Stuck-left,
}

-- Both threads step, in any order and however often.
pub record Both (ts : List Starter) : Type 0 where
  pub maker_in :
      (before : List Starter) × (after : List Starter) × (ts ≡ before ++ (steps_maker ∷ after))
  pub runner_in :
      (before : List Starter) × (after : List Starter) × (ts ≡ before ++ (steps_runner ∷ after))

abbrev pub is_wakes_up : Starter → ℕ
is_wakes_up steps_maker = 0
is_wakes_up steps_runner = 0
is_wakes_up wakes_up = 1

-- How many of the events are wake-ups without a notification.
abbrev pub wake_ups : List Starter → ℕ
wake_ups ts = total is_wakes_up ts

pub run-Inv : (ts : List Starter) (s : Start) → InvAt s → InvAt (run_steps start_step ts s)
run-Inv [] s v = v
run-Inv (t ∷ ts) s v = run-Inv ts (start_step t s) (start_step-Inv t s v)

maker_moves :
    (s : Start)
    → InvAt s
    → (left (start_step steps_maker s) < left s)
      ⊎ ((start_step steps_maker s ≡ s) × MakerStuck s.owner s.maker)
unfolding start_step
maker_moves s v = maker-move s.maker s.runner s.count s.owner v

runner_moves :
    (s : Start)
    → InvAt s
    → (left (start_step steps_runner s) < left s)
      ⊎ ((start_step steps_runner s ≡ s) × RunnerStuck s.owner s.runner)
unfolding start_step
runner_moves s v = runner-move s.runner s.maker s.count s.owner v

one_step :
    (t : Starter) (s : Start)
    → InvAt s
    → (start_step t s ≡ s) ⊎ (left (start_step t s) + 1 ≤ left s + 3 * is_wakes_up t)
unfolding start_step
one_step steps_maker s v = elim (maker_moves s v) [
  | inl less ↦ inr (omega arith)
  | inr (same, why) ↦ inl same
]
one_step steps_runner s v = elim (runner_moves s v) [
  | inl less ↦ inr (omega arith)
  | inr (same, why) ↦ inl same
]
one_step wakes_up s v = inr (omega (arith, (notified-move s.maker s.runner s.count s.owner).0))

any_steps :
    (ts : List Starter) (s : Start)
    → InvAt s
    → (run_steps start_step ts s ≡ s)
      ⊎ (left (run_steps start_step ts s) + 1 ≤ left s + 3 * wake_ups ts)
any_steps [] s v = inl refl
any_steps (t ∷ ts) s v = elim (any_steps ts (start_step t s) (start_step-Inv t s v)) [
  | inl still ↦ elim (one_step t s v) [
    | inl same ↦ inl (still ∙ same)
    | inr less ↦ inr (omega (arith, ap left still))
  ]
  | inr more ↦ elim (one_step t s v) [
    | inl same ↦ inr (omega (arith, ap left same))
    | inr less ↦ inr (omega arith)
  ]
]

at_most :
    (ts : List Starter) (s : Start)
    → InvAt s
    → left (run_steps start_step ts s) ≤ left s + 3 * wake_ups ts
at_most ts s v = elim (any_steps ts s v) [
  | inl same ↦ omega (arith, ap left same)
  | inr less ↦ omega arith
]

-- Steps with one among them that moves.
with_move :
    (before after : List Starter) (t : Starter) (s : Start)
    → InvAt s
    → left (start_step t s) < left s
    → left (run_steps start_step (before ++ (t ∷ after)) s) + 1
      ≤ left s + 3 * wake_ups (before ++ (t ∷ after))
with_move before after t s v lt = elim (any_steps before s v) [
  | inl same ↦ omega (
    arith,
    parts,
    ap left (whole ∙ ap (run_steps start_step (t ∷ after)) same),
    at_most after (start_step t s) (start_step-Inv t s v),
  )
  | inr less ↦ omega (
    arith,
    parts,
    ap left whole,
    at_most (t ∷ after) (run_steps start_step before s) (run-Inv before s v),
  )
]
  where
    parts : wake_ups (before ++ (t ∷ after)) ≡ wake_ups before + (is_wakes_up t + wake_ups after)
    parts = total-append is_wakes_up before (t ∷ after)

    whole :
        run_steps start_step (before ++ (t ∷ after)) s
        ≡ run_steps start_step (t ∷ after) (run_steps start_step before s)
    whole = run_steps-append start_step before (t ∷ after) s

round-moves :
    (ts : List Starter) (s : Start)
    → Both ts
    → InvAt s
    → 0 < left s
    → left (run_steps start_step ts s) + 1 ≤ left s + 3 * wake_ups ts
round-moves ts s both v more = elim (maker_moves s v) [
  | inl less ↦
      let (before, after, e) = both.maker_in in
      subst (λ us. left (run_steps start_step us s) + 1 ≤ left s + 3 * wake_ups us) (sym e)
        (with_move before after steps_maker s v less)
  | inr (_, a) ↦ elim (runner_moves s v) [
    | inl less ↦
        let (before, after, e) = both.runner_in in
        subst (λ us. left (run_steps start_step us s) + 1 ≤ left s + 3 * wake_ups us) (sym e)
          (with_move before after steps_runner s v less)
    | inr (_, b) ↦ absurd (omega (arith, Stuck-left s v a b))
  ]
]

-- Nothing happens at the end.
ended : (t : Starter) (s : Start) → InvAt s → left s ≡ 0 → left (start_step t s) ≡ 0
unfolding start_step
ended steps_maker s v h = elim (maker_moves s v) [
  | inl less ↦ absurd (omega arith)
  | inr (same, why) ↦ ap left same ∙ h
]
ended steps_runner s v h = elim (runner_moves s v) [
  | inl less ↦ absurd (omega arith)
  | inr (same, why) ↦ ap left same ∙ h
]
ended wakes_up s v h = elim (notified-move s.maker s.runner s.count s.owner).1 [
  | inl same ↦ ap (λ m. maker_left s.count m + runner_left s.runner) same ∙ h
  | inr e ↦ absurd (omega (arith, ap (maker_left s.count) e))
]

run-ended :
    (ts : List Starter) (s : Start) → InvAt s → left s ≡ 0 → left (run_steps start_step ts s) ≡ 0
run-ended [] s v h = h
run-ended (t ∷ ts) s v h = run-ended ts (start_step t s) (start_step-Inv t s v) (ended t s v h)

pub rounds-finish :
    (tss : List (List Starter)) (s : Start)
    → All Both tss
    → InvAt s
    → left s + 3 * wake_ups (rounds tss) ≤ length tss
    → left (run_steps start_step (rounds tss) s) ≡ 0
rounds-finish [] s both v h = omega arith
rounds-finish (ts ∷ tss) s both v h = elim (ℕ_discrete (left s) 0) [
  | yes e ↦ run-ended (ts ++ rounds tss) s v e
  | no more ↦
      ap left (run_steps-append start_step ts (rounds tss) s)
      ∙ rounds-finish tss (run_steps start_step ts s) both.1 (run-Inv ts s v) (
          omega (
            arith,
            round-moves ts s both.0 v (omega arith),
            total-append is_wakes_up ts (rounds tss),
          ))
]

pub maker_end : (m : Maker) (count : ℕ) → maker_left count m ≡ 0 → m ≡ returned
maker_end starts count h = absurd (omega arith)
maker_end enters count h = absurd (ground (arith, h))
maker_end checks count h = absurd (ground (arith, h))
maker_end blocked count h = absurd (omega arith)
maker_end wakes count h = absurd (ground (arith, h))
maker_end leaves count h = absurd (omega arith)
maker_end returned count h = refl

pub runner_end : (r : Runner) → runner_left r ≡ 0 → r ≡ finished
runner_end unstarted h = absurd (omega arith)
runner_end names h = absurd (omega arith)
runner_end locks h = absurd (omega arith)
runner_end downs h = absurd (omega arith)
runner_end unlocks h = absurd (omega arith)
runner_end calls h = absurd (omega arith)
runner_end finished h = refl
