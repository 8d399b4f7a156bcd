-- ===== src/Handshake/Threads.antt =====
-- The threads of a process, and how their steps change the process.
use ex_netlink.Base.{
  ℕ, zero, suc, Option, none, some, List, [], ◌∷◌, Bool, true, false, ◌==◌, if◌then◌else◌,
}
use ex_netlink.Atomic.Fair.{run_steps}
use ex_netlink.Handshake.Prog.{
  Sys, Call, sys, lock, unlock, wait, store, notify_one, notify_all, start, join, Prog, done, abort,
  call,
}

-- Whether a thread runs, is not started, or is inside a `wait` on the `m`-th condition variable: it
-- has seen the flag unset and still holds the mutex, is blocked without it, or is woken and wants it.
pub data Phase : Type 0 where
  unstarted running : Phase
  about_to_block blocked woken : ℕ → Phase

-- A call of a thread, at a line, with its answer.
pub record Entry : Type 0 where
  pub thread : ℕ
  pub line : ℕ
  pub made : Sys
  pub answer : Option ℕ

pub record Process : Type 0 where
  pub count : ℕ
  pub progs : ℕ → Prog
  pub phases : ℕ → Phase
  pub flags : ℕ → Bool
  pub owner : ℕ → Option ℕ
  pub aborted : Bool
  -- Newest first.
  pub log : List Entry

abbrev pub put : {A : Type 0} → (ℕ → A) → ℕ → A → ℕ → A
put f i x j = if j == i then x else f j

abbrev pub is_none : Option ℕ → Bool
is_none none = true
is_none (some a) = false

abbrev pub wake : ℕ → Phase → Phase
wake m unstarted = unstarted
wake m running = running
wake m (about_to_block l) = about_to_block l
wake m (blocked l) = if l == m then woken m else blocked l
wake m (woken l) = woken l

abbrev pub is_blocked : ℕ → Phase → Bool
is_blocked m unstarted = false
is_blocked m running = false
is_blocked m (about_to_block l) = false
is_blocked m (blocked l) = l == m
is_blocked m (woken l) = false

-- `notify_one`: the thread `pick` if it is blocked on `m`, else the last one of the first `n` that is.
abbrev pub chosen : (ℕ → Phase) → ℕ → ℕ → ℕ → ℕ
chosen phases m pick zero = pick
chosen phases m pick (suc n) =
    let rest = chosen phases m pick n in
    if is_blocked m (phases pick) then pick else if is_blocked m (phases n) then n else rest

abbrev pub is_done : Prog → Bool
is_done done = true
is_done abort = false
is_done (call c k) = false

-- The thread `i` goes on after its call, to which the answer is `a`.
abbrev pub goes_on : Process → ℕ → Option ℕ → (Option ℕ → Prog) → Process
goes_on p i a k = record p { progs = put p.progs i (k a) }

unfoldable pub perform : Process → ℕ → Option ℕ → ℕ → Call → (Option ℕ → Prog) → Process
perform p i a pick (sys line s) k = record (goes_on p i a k) {
  log = record { thread = i; line = line; made = s; answer = a } ∷ p.log;
}
perform p i a pick (lock m) k =
    if is_none (p.owner m)
    then record (goes_on p i none k) { owner = put p.owner m (some i) }
    else p
perform p i a pick (unlock m) k = record (goes_on p i none k) { owner = put p.owner m none }
perform p i a pick (wait m) k =
    if p.flags m
    then goes_on p i none k
    else record p { phases = put p.phases i (about_to_block m) }
perform p i a pick (store m) k = record (goes_on p i none k) { flags = put p.flags m true }
perform p i a pick (notify_one m) k = record (goes_on p i none k) {
  phases =
      put p.phases (chosen p.phases m pick p.count)
        (wake m (p.phases (chosen p.phases m pick p.count)));
}
perform p i a pick (notify_all m) k = record (goes_on p i none k) {
  phases = λ j. wake m (p.phases j);
}
perform p i a pick (start m) k = record (goes_on p i none k) { phases = put p.phases m running }
perform p i a pick (join m) k = if is_done (p.progs m) then goes_on p i none k else p

unfoldable pub resume : Process → ℕ → Option ℕ → ℕ → Phase → Prog → Process
resume p i a pick unstarted rest = p
resume p i a pick running done = p
resume p i a pick running abort = record p { aborted = true }
resume p i a pick running (call c k) = perform p i a pick c k
resume p i a pick (about_to_block m) rest = record p {
  phases = put p.phases i (blocked m);
  owner = put p.owner m none;
}
resume p i a pick (blocked m) rest = p
resume p i a pick (woken m) rest =
    if is_none (p.owner m)
    then record p { phases = put p.phases i running; owner = put p.owner m (some i) }
    else p

-- A step of the thread `i`, with the system's answer should it make a call, and the thread that a
-- `notify_one` wakes; or a wake-up without a notification.
pub data Event : Type 0 where
  runs : ℕ → Option ℕ → ℕ → Event
  wakes_up : ℕ → ℕ → Event

unfoldable pub step : Event → Process → Process
step (runs i a pick) p = if p.aborted then p else resume p i a pick (p.phases i) (p.progs i)
step (wakes_up i m) p = record p { phases = put p.phases i (wake m (p.phases i)) }

abbrev pub run_events : List Event → Process → Process
run_events es p = run_steps step es p

abbrev pub prog_at : List Prog → ℕ → Prog
prog_at [] i = done
prog_at (p ∷ ps) zero = p
prog_at (p ∷ ps) (suc i) = prog_at ps i

abbrev size : List Prog → ℕ
size [] = 0
size (p ∷ ps) = suc (size ps)

-- Only `main`, the first thread, runs.
unfoldable pub process : List Prog → Process
process ps = record {
  count = size ps;
  progs = prog_at ps;
  phases = put (λ _. unstarted) 0 running;
  flags = λ _. false;
  owner = λ _. none;
  aborted = false;
  log = [];
}
