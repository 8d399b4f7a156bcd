-- ===== src/Atomic/Order.antt =====
-- In which order the threads of `Foo` print, under any schedule.
use ex_netlink.Base.{
  sym, suc, ℕ, ◌≤◌, ◌<◌, ◌≡◌, refl, ap, ◌∙◌, ◌⊎◌, inl, inr, List, [], ◌∷◌, ◌++◌, arith, All, length,
  ◌-◌,
}
use ex_netlink.Atomic.Fair.{Fair, rounds, run_steps-keeps, rounds-end}
use ex_netlink.Atomic.Defs.{
  spins, passed, printed, returned, Foo, new_foo, first, second, third, Thread, runs_first,
  runs_second, runs_third, step, run,
}

-- The states that can be reached, in the only order in which they can.
pub data Stage : Type 0 where
  new first_printed first_done second_passed second_printed second_done third_passed all_done :
      Stage

abbrev pub state : Stage → Foo
state new = record { cnt = 1; at_first = passed; at_second = spins; at_third = spins; out = [] }
state first_printed = record {
  cnt = 1;
  at_first = printed;
  at_second = spins;
  at_third = spins;
  out = 1 ∷ [];
}
state first_done = record {
  cnt = 2;
  at_first = returned;
  at_second = spins;
  at_third = spins;
  out = 1 ∷ [];
}
state second_passed = record {
  cnt = 2;
  at_first = returned;
  at_second = passed;
  at_third = spins;
  out = 1 ∷ [];
}
state second_printed = record {
  cnt = 2;
  at_first = returned;
  at_second = printed;
  at_third = spins;
  out = 1 ∷ 2 ∷ [];
}
state second_done = record {
  cnt = 3;
  at_first = returned;
  at_second = returned;
  at_third = spins;
  out = 1 ∷ 2 ∷ [];
}
state third_passed = record {
  cnt = 3;
  at_first = returned;
  at_second = returned;
  at_third = passed;
  out = 1 ∷ 2 ∷ [];
}
state all_done = record {
  cnt = 3;
  at_first = returned;
  at_second = returned;
  at_third = returned;
  out = 1 ∷ 2 ∷ 3 ∷ [];
}

-- The thread that a stage waits for, and the stage behind it.
abbrev mover : Stage → Thread
mover new = runs_first
mover first_printed = runs_first
mover first_done = runs_second
mover second_passed = runs_second
mover second_printed = runs_second
mover second_done = runs_third
mover third_passed = runs_third
mover all_done = runs_third

abbrev later : Stage → Stage
later new = first_printed
later first_printed = first_done
later first_done = second_passed
later second_passed = second_printed
later second_printed = second_done
later second_done = third_passed
later third_passed = all_done
later all_done = all_done

abbrev left : Stage → ℕ
left new = 7
left first_printed = 6
left first_done = 5
left second_passed = 4
left second_printed = 3
left second_done = 2
left third_passed = 1
left all_done = 0

step-mover : (k : Stage) → step (mover k) (state k) ≡ state (later k)
unfolding step first second third
step-mover new = refl
step-mover first_printed = refl
step-mover first_done = refl
step-mover second_passed = refl
step-mover second_printed = refl
step-mover second_done = refl
step-mover third_passed = refl
step-mover all_done = refl

-- A step of any thread leaves the stage or moves to the next one.
step-state :
    (t : Thread) (k : Stage)
    → (step t (state k) ≡ state k)
      ⊎ ((step t (state k) ≡ state (later k)) × (left (later k) < left k))
unfolding step first second third
step-state runs_first new = inr (refl, omega arith)
step-state runs_first first_printed = inr (refl, omega arith)
step-state runs_first first_done = inl refl
step-state runs_first second_passed = inl refl
step-state runs_first second_printed = inl refl
step-state runs_first second_done = inl refl
step-state runs_first third_passed = inl refl
step-state runs_first all_done = inl refl
step-state runs_second new = inl refl
step-state runs_second first_printed = inl refl
step-state runs_second first_done = inr (refl, omega arith)
step-state runs_second second_passed = inr (refl, omega arith)
step-state runs_second second_printed = inr (refl, omega arith)
step-state runs_second second_done = inl refl
step-state runs_second third_passed = inl refl
step-state runs_second all_done = inl refl
step-state runs_third new = inl refl
step-state runs_third first_printed = inl refl
step-state runs_third first_done = inl refl
step-state runs_third second_passed = inl refl
step-state runs_third second_printed = inl refl
step-state runs_third second_done = inr (refl, omega arith)
step-state runs_third third_passed = inr (refl, omega arith)
step-state runs_third all_done = inl refl

left-later : (k : Stage) → left (later k) ≤ left k - 1
left-later new = omega arith
left-later first_printed = omega arith
left-later first_done = omega arith
left-later second_passed = omega arith
left-later second_printed = omega arith
left-later second_done = omega arith
left-later third_passed = omega arith
left-later all_done = omega arith

-- The stage `k`, with `m` moves left.
abbrev AtStage : Foo → ℕ → Type 0
AtStage f m = (k : Stage) × (f ≡ state k) × (left k ≡ m)

step-keeps :
    (f : Foo) (m : ℕ) (t : Thread)
    → AtStage f m
    → (step t f ≡ f) ⊎ ((i : ℕ) × AtStage (step t f) i × (i < m))
step-keeps f m t (k, e, l) = elim (step-state t k) [
  | inl same ↦ inl (ap (step t) e ∙ same ∙ sym e)
  | inr (moved, lt) ↦ inr (left (later k), (later k, ap (step t) e ∙ moved, refl), omega arith)
]

step-moves :
    (f : Foo) (m : ℕ) → AtStage f (suc m) → (t : Thread) × (i : ℕ) × AtStage (step t f) i × (i ≤ m)
step-moves f m (k, e, l) = (
  mover k,
  left (later k),
  (later k, ap (step (mover k)) e ∙ step-mover k, refl),
  omega (arith, left-later k),
)

run-state : (ts : List Thread) (k : Stage) → (j : Stage) × (run ts (state k) ≡ state j)
unfolding run
run-state ts k =
    elim (run_steps-keeps step AtStage step-keeps step-moves ts (state k) (left k)
      (k, refl, refl)) [ inl same ↦ (k, same) | inr (i, (j, e, l), lt) ↦ (j, e) ]

out-prefix : (k : Stage) → (rest : List ℕ) × ((state k).out ++ rest ≡ 1 ∷ 2 ∷ 3 ∷ [])
out-prefix new = (1 ∷ 2 ∷ 3 ∷ [], refl)
out-prefix first_printed = (2 ∷ 3 ∷ [], refl)
out-prefix first_done = (2 ∷ 3 ∷ [], refl)
out-prefix second_passed = (2 ∷ 3 ∷ [], refl)
out-prefix second_printed = (3 ∷ [], refl)
out-prefix second_done = (3 ∷ [], refl)
out-prefix third_passed = (3 ∷ [], refl)
out-prefix all_done = ([], refl)

-- Under any schedule, what has been printed is a beginning of "first", "second", "third", in this
-- order.
run-in_order :
    (ts : List Thread) → (rest : List ℕ) × ((run ts new_foo).out ++ rest ≡ 1 ∷ 2 ∷ 3 ∷ [])
unfolding new_foo
run-in_order ts =
    let (k, e) = run-state ts new in
    let (rest, p) = out-prefix k in (rest, ap (λ (f : Foo). f.out ++ rest) e ∙ p)

left_zero : (k : Stage) → left k ≡ 0 → k ≡ all_done
left_zero new h = absurd (omega arith)
left_zero first_printed h = absurd (omega arith)
left_zero first_done h = absurd (omega arith)
left_zero second_passed h = absurd (omega arith)
left_zero second_printed h = absurd (omega arith)
left_zero second_done h = absurd (omega arith)
left_zero third_passed h = absurd (omega arith)
left_zero all_done h = refl

-- After seven rounds in each of which every thread steps at least once, in any order and however
-- often, all three threads have returned and "first", "second", "third" has been printed.
run-finishes :
    (tss : List (List Thread))
    → All Fair tss
    → 7 ≤ length tss
    → run (rounds tss) new_foo ≡ record {
      cnt = 3;
      at_first = returned;
      at_second = returned;
      at_third = returned;
      out = 1 ∷ 2 ∷ 3 ∷ [];
    }
unfolding new_foo run
run-finishes tss fair h =
    let (k, e, l) =
      rounds-end step AtStage step-keeps step-moves tss (state new) 7 fair h (new, refl, refl) in
    e ∙ ap state (left_zero k l)
