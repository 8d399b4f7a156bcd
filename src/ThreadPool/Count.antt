-- ===== src/ThreadPool/Count.antt =====
-- set/thread_pool/Count.h and Thread.h: the latch `Count`, and the start of a `Thread`, which waits on
-- one.
use ex_netlink.Base.{
  ℕ, zero, suc, ◌+◌, ◌-◌, ◌%◌, ◌^◌, ◌≤◌, ◌≡◌, ◌∙◌, List, [], ◌∷◌, ◌++◌, Bool, true, false, ◌==◌,
  if◌then◌else◌, arith,
}

-- `count_`, of 16 bits, and how often `notify_all` has been called.
pub record Count : Type 0 where
  pub count : ℕ
  pub notified : ℕ

unfoldable pub new_count : ℕ → Count
new_count n = record { count = n; notified = 0 }

unfoldable pub down : Count → Count
down c =
    let left = (c.count + 2 ^ 16 - 1) % 2 ^ 16 in
    record { count = left; notified = if left == 0 then c.notified + 1 else c.notified }

-- Whether `wait` returns in this state: the predicate that it waits for.
unfoldable pub wait_returns : Count → Bool
wait_returns c = c.count == 0

-- What a thread does before and in its function: it sets its name, unless that is empty, counts the
-- latch down, and calls the function, unless that is empty. An exception ends it too.
pub data Doing : Type 0 where
  names downs calls prints_exception : Doing

unfoldable pub set_thread_name : List ℕ → List Doing
set_thread_name [] = []
set_thread_name (c ∷ cs) = names ∷ []

unfoldable pub call : Bool → Bool → List Doing
call false throws = []
call true false = calls ∷ []
call true true = calls ∷ prints_exception ∷ []

unfoldable pub run_thread : List ℕ → Bool → Bool → List Doing
run_thread name func throws = set_thread_name name ++ (downs ∷ call func throws)

abbrev pub down_all : ℕ → Count → Count
down_all zero c = c
down_all (suc n) c = down_all n (down c)

-- Each of at most `count` calls of `down` takes one off the count.
pub down_all-count :
    (n : ℕ) (c : Count) → n ≤ c.count → c.count ≤ 65535 → (down_all n c).count ≡ c.count - n
unfolding down
down_all-count zero c h s = omega arith
down_all-count (suc n) c h s = down_all-count n (down c) (omega arith) (omega arith) ∙ omega arith
