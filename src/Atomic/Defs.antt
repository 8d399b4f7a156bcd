-- ===== src/Atomic/Defs.antt =====
-- set/atomic/main.cpp: the class `Foo` and the threads of `main`.
use ex_netlink.Atomic.Fair.{run_steps}
use ex_netlink.Base.{ℕ, List, [], ◌∷◌, ◌++◌, ◌==◌, if◌then◌else◌}

-- The points of a thread: in its loop (or, in `first`, at its start), past it, past its print, and
-- at its end.
pub data Point : Type 0 where
  spins passed printed returned : Point

pub record Foo : Type 0 where
  pub cnt : ℕ
  pub at_first : Point
  pub at_second : Point
  pub at_third : Point
  pub out : List ℕ

unfoldable pub new_foo : Foo
new_foo = record { cnt = 1; at_first = passed; at_second = spins; at_third = spins; out = [] }

-- One step of each of the three functions, by the point that its thread has reached.
unfoldable pub first : Foo → Point → Foo
first f spins = f
first f passed = record f { at_first = printed; out = f.out ++ (1 ∷ []) }
first f printed = record f { at_first = returned; cnt = 2 }
first f returned = f

unfoldable pub second : Foo → Point → Foo
second f spins = if f.cnt == 2 then record f { at_second = passed } else f
second f passed = record f { at_second = printed; out = f.out ++ (2 ∷ []) }
second f printed = record f { at_second = returned; cnt = 3 }
second f returned = f

unfoldable pub third : Foo → Point → Foo
third f spins = if f.cnt == 3 then record f { at_third = passed } else f
third f passed = record f { at_third = returned; out = f.out ++ (3 ∷ []) }
third f printed = f
third f returned = f

-- The threads `y`, `y1` and `y2` of `main`, by the function that they run.
pub data Thread : Type 0 where
  runs_first runs_second runs_third : Thread

unfoldable pub step : Thread → Foo → Foo
step runs_first f = first f f.at_first
step runs_second f = second f f.at_second
step runs_third f = third f f.at_third

unfoldable pub run : List Thread → Foo → Foo
run ts f = run_steps step ts f
