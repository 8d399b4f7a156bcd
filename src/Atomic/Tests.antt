-- ===== src/Atomic/Tests.antt =====
-- Runs of `Foo` under two schedules, and of `ZeroEvenOdd` under one.
use ex_netlink.Base.{ℕ, zero, suc, All, ◌≡◌, refl, List, [], ◌∷◌, ◌++◌, arith}
use ex_netlink.Atomic.{
  new_foo, step, first, second, third, Thread, runs_first, runs_second, runs_third, run,
}
use ex_netlink.Atomic.Fair.{Fair, rounds}
use ex_netlink.Atomic.Zero.Order.{run_printers-in_order, run_printers-finishes}
use ex_netlink.Atomic.Zero.{
  Printer, returns, runs_zero, runs_even, runs_odd, new_zero_even_odd, zero_step, even_step,
  odd_step, step_printer, run_printers,
}

-- The second and the third thread step first.
abbrev backwards : List Thread
backwards = runs_third ∷ runs_second ∷ runs_first ∷ []

abbrev seven : List (List Thread)
seven = backwards ∷ backwards ∷ backwards ∷ backwards ∷ backwards ∷ backwards ∷ backwards ∷ []

all_printed : (run (rounds seven) new_foo).out ≡ 1 ∷ 2 ∷ 3 ∷ []
unfolding run step first second third new_foo
all_printed = refl

-- With n = 2 and the threads in turn, the printed numbers are 0, 1, 0, 2.
abbrev turn : List Printer
turn = runs_zero ∷ runs_even ∷ runs_odd ∷ []

abbrev five_turns : List Printer
five_turns = turn ++ (turn ++ (turn ++ (turn ++ turn)))

zero_one_zero_two :
    (run_printers
      (five_turns ++ (five_turns ++ (five_turns ++ five_turns)))
      (new_zero_even_odd 2)).out
    ≡ 0 ∷ 1 ∷ 0 ∷ 2 ∷ []
unfolding run_printers step_printer zero_step even_step odd_step new_zero_even_odd
zero_one_zero_two = refl

run_printers-in_order_example :
    (rest : List ℕ) × ((run_printers (turn ++ turn) (new_zero_even_odd 3)).out ++ rest
      ≡ 0 ∷ 1 ∷ 0 ∷ 2 ∷ 0 ∷ 3 ∷ [])
run_printers-in_order_example = run_printers-in_order 3 (turn ++ turn)

turn-Fair : Fair turn
turn-Fair = record { each = place }
  where
    place :
        (t : Printer)
        → (before : List Printer) × (after : List Printer) × (turn ≡ before ++ (t ∷ after))
    place runs_zero = ([], runs_even ∷ runs_odd ∷ [], refl)
    place runs_even = (runs_zero ∷ [], runs_odd ∷ [], refl)
    place runs_odd = (runs_zero ∷ runs_even ∷ [], [], refl)

abbrev times : ℕ → List (List Printer)
times zero = []
times (suc k) = turn ∷ times k

times-Fair : (k : ℕ) → All Fair (times k)
times-Fair zero = tt
times-Fair (suc k) = (turn-Fair, times-Fair k)

abbrev TwoPrinted : Type 0
TwoPrinted =
    ((run_printers (rounds (times 27)) (new_zero_even_odd 2)).out ≡ 0 ∷ 1 ∷ 0 ∷ 2 ∷ [])
    × ((run_printers (rounds (times 27)) (new_zero_even_odd 2)).at_zero.place ≡ returns)
    × ((run_printers (rounds (times 27)) (new_zero_even_odd 2)).at_even.place ≡ returns)
    × ((run_printers (rounds (times 27)) (new_zero_even_odd 2)).at_odd.place ≡ returns)

run_printers-finishes_example : TwoPrinted
run_printers-finishes_example = run_printers-finishes 2 (times 27) (times-Fair 27) (omega arith)
