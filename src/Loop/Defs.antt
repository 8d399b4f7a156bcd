-- ===== src/Loop/Defs.antt =====
-- set/loop/Loop.h and Loop.cpp: the members of `Loop` and its operations.
use ex_netlink.Base.{
  ℕ, ◌-◌, Option, none, some, List, [], ◌∷◌, ◌++◌, Bool, true, false, ltb, if◌then◌else◌, ◌>>=◌,
}

-- `struct timer`
pub record Timer : Type 0 where
  pub timestamp : ℕ
  pub runnable : ℕ

-- The members of `Loop`; `outtime` is the thread-local variable of Loop.cpp.
pub record Loop : Type 0 where
  pub is_quit : Bool
  pub idle : List ℕ
  pub runable : List ℕ
  pub timer : List Timer
  pub io_handle : Bool
  pub outtime : ℕ
  pub ran : List ℕ
  pub waits : List ℕ

-- What a callback may ask of its loop.
pub data Call : Type 0 where
  calls_quit : Call
  calls_run_at : ℕ → ℕ → Call
  calls_push_idle : ℕ → Call
  calls_push_runable : ℕ → Call

unfoldable pub new_loop : Loop
new_loop = record {
  is_quit = true;
  idle = [];
  runable = [];
  timer = [];
  io_handle = false;
  outtime = 0;
  ran = [];
  waits = [];
}

-- `pushIdle` appends to `runable_`, and `pushRunable` to `idle_`.
unfoldable pub push_idle : Loop → ℕ → Loop
push_idle l f = record l { runable = l.runable ++ (f ∷ []) }

unfoldable pub push_runable : Loop → ℕ → Loop
push_runable l f = record l { idle = l.idle ++ (f ∷ []) }

unfoldable pub quit : Loop → Loop
quit l = record l { is_quit = true }

unfoldable pub register_io_handle : Loop → Loop
register_io_handle l = record l { io_handle = true }

-- `timer_.emplace`
unfoldable pub emplace : Timer → List Timer → List Timer
emplace t [] = t ∷ []
emplace t (u ∷ us) = if ltb t.timestamp u.timestamp then t ∷ u ∷ us else u ∷ emplace t us

unfoldable pub run_at : Loop → ℕ → ℕ → Loop
run_at l timestamp func = record l {
  timer = emplace (record { timestamp = timestamp; runnable = func }) l.timer;
}

-- `time_mut_` is held or not while a callback runs; `runAt` locks it.
unfoldable pub perform : Bool → Loop → Call → Option Loop
perform held l calls_quit = some (quit l)
perform held l (calls_run_at t f) = if held then none else some (run_at l t f)
perform held l (calls_push_idle f) = some (push_idle l f)
perform held l (calls_push_runable f) = some (push_runable l f)

unfoldable pub perform_all : Bool → Loop → List Call → Option Loop
perform_all held l [] = some l
perform_all held l (c ∷ cs) = perform held l c >>= λ k. perform_all held k cs

module _ (body : ℕ → List Call) where
  unfoldable pub invoke : Bool → Loop → ℕ → Option Loop
  invoke held l f = perform_all held (record l { ran = l.ran ++ (f ∷ []) }) (body f)

  -- `std::ranges::for_each` over the callbacks that were swapped out.
  unfoldable pub for_each : Loop → List ℕ → Option Loop
  for_each l [] = some l
  for_each l (f ∷ fs) = invoke false l f >>= λ k. for_each k fs

  -- `handle_runnable(idle_, idle_mut_)` and `handle_runnable(runable_, run_mut_)`.
  unfoldable pub handle_idle : Loop → Option Loop
  handle_idle l = for_each (record l { idle = [] }) l.idle

  unfoldable pub handle_runable : Loop → Option Loop
  handle_runable l = for_each (record l { runable = [] }) l.runable

  -- The loop of `handle_timer` over the timers, with its variable `t`; `outtime = t` at its end.
  unfoldable pub fire : ℕ → Loop → List Timer → ℕ → Option Loop
  fire timestamp l [] t = some (record l { timer = []; outtime = t })
  fire timestamp l (u ∷ us) t =
      if ltb timestamp u.timestamp
      then some (record l { timer = u ∷ us; outtime = u.timestamp })
      else (invoke true l u.runnable >>= λ k. fire timestamp k us u.timestamp)

  unfoldable pub handle_timer : ℕ → Loop → Option Loop
  handle_timer timestamp l = fire timestamp l l.timer l.outtime

  unfoldable pub get_outtime : ℕ → Loop → ℕ
  get_outtime t l = if ltb l.outtime t then t - l.outtime else 0

  unfoldable pub handle_io_source : (ℕ → List Call) → ℕ → Loop → Option Loop
  handle_io_source io out l =
      if l.io_handle
      then perform_all false (record l { waits = l.waits ++ (out ∷ []) }) (io out)
      else some l

  -- One round of the `while` of `run`, with the two readings of the clock.
  unfoldable pub round : (ℕ → List Call) → ℕ → ℕ → Loop → Option Loop
  round io t₁ t₂ l = do
    a ← handle_idle l
    b ← handle_io_source io (get_outtime t₁ a) a
    c ← handle_timer t₂ b
    handle_runable c

  unfoldable pub while_running : (ℕ → List Call) → List (ℕ × ℕ) → Loop → Option Loop
  while_running io [] l = some l
  while_running io ((t₁, t₂) ∷ ts) l =
      if l.is_quit then some l else (round io t₁ t₂ l >>= λ k. while_running io ts k)

  unfoldable pub run : (ℕ → List Call) → List (ℕ × ℕ) → Loop → Option Loop
  run io ts l = while_running io ts (record l { is_quit = false })
