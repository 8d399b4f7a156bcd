-- ===== src/Atomic/Zero.antt =====
-- set/atomic/main1.cpp: the class `ZeroEvenOdd`, three threads that print 0 1 0 2 0 3 and so on.
pub mod Inv
pub mod Moves
pub mod Order
pub mod Printed
use ex_netlink.Atomic.Fair.{run_steps}
use ex_netlink.Base.{ℕ, ◌+◌, ◌%◌, List, [], ◌∷◌, ◌++◌, ◌==◌, leb, if◌then◌else◌}

-- A thread is at the test of its `for` loop, at the one of its `while` loop, before its print, before
-- its store, or at its end.
pub data Place : Type 0 where
  tests spins prints stores returns : Place

pub record Counter : Type 0 where
  pub i : ℕ
  pub place : Place

pub record ZeroEvenOdd : Type 0 where
  pub n : ℕ
  pub flag : ℕ
  pub at_zero : Counter
  pub at_even : Counter
  pub at_odd : Counter
  pub out : List ℕ

unfoldable pub new_zero_even_odd : ℕ → ZeroEvenOdd
new_zero_even_odd n = record {
  n = n;
  flag = 0;
  at_zero = record { i = 1; place = tests };
  at_even = record { i = 2; place = tests };
  at_odd = record { i = 1; place = tests };
  out = [];
}

-- One step of each of the three functions, by the place of its thread.
unfoldable pub zero_step : ZeroEvenOdd → Counter → Place → ZeroEvenOdd
zero_step z c tests =
    if leb c.i z.n
    then record z { at_zero = record c { place = spins } }
    else record z { at_zero = record c { place = returns } }
zero_step z c spins = if z.flag == 0 then record z { at_zero = record c { place = prints } } else z
zero_step z c prints = record z { at_zero = record c { place = stores }; out = z.out ++ (0 ∷ []) }
zero_step z c stores = record z {
  flag = if c.i % 2 == 0 then 2 else 1;
  at_zero = record { i = c.i + 1; place = tests };
}
zero_step z c returns = z

unfoldable pub even_step : ZeroEvenOdd → Counter → Place → ZeroEvenOdd
even_step z c tests =
    if leb c.i z.n
    then record z { at_even = record c { place = spins } }
    else record z { at_even = record c { place = returns } }
even_step z c spins = if z.flag == 2 then record z { at_even = record c { place = prints } } else z
even_step z c prints = record z { at_even = record c { place = stores }; out = z.out ++ (c.i ∷ []) }
even_step z c stores = record z { flag = 0; at_even = record { i = c.i + 2; place = tests } }
even_step z c returns = z

unfoldable pub odd_step : ZeroEvenOdd → Counter → Place → ZeroEvenOdd
odd_step z c tests =
    if leb c.i z.n
    then record z { at_odd = record c { place = spins } }
    else record z { at_odd = record c { place = returns } }
odd_step z c spins = if z.flag == 1 then record z { at_odd = record c { place = prints } } else z
odd_step z c prints = record z { at_odd = record c { place = stores }; out = z.out ++ (c.i ∷ []) }
odd_step z c stores = record z { flag = 0; at_odd = record { i = c.i + 2; place = tests } }
odd_step z c returns = z

-- The threads `y`, `y1` and `y2` of `main`, by the function that they run.
pub data Printer : Type 0 where
  runs_zero runs_even runs_odd : Printer

unfoldable pub step_printer : Printer → ZeroEvenOdd → ZeroEvenOdd
step_printer runs_zero z = zero_step z z.at_zero z.at_zero.place
step_printer runs_even z = even_step z z.at_even z.at_even.place
step_printer runs_odd z = odd_step z z.at_odd z.at_odd.place

unfoldable pub run_printers : List Printer → ZeroEvenOdd → ZeroEvenOdd
run_printers ts z = run_steps step_printer ts z
