-- ===== src/ThreadPool/Defs.antt =====
-- set/thread_pool/ThreadPool.h: the shared `data`, the workers, and their steps.
use ex_netlink.Base.{
  ℕ, zero, suc, ◌+◌, ◌-◌, ◌<◌, ◌≡◌, some, List, [], ◌∷◌, ◌++◌, map, Bool, true, false, ltb,
  if◌then◌else◌, get_elem?, set, total,
}

-- Where a worker stands in `bind_run`: about to lock and look at the queue; running a task; blocked
-- in `cond_.wait`; returned.
pub data Worker : Type 0 where
  checking : Worker
  running : ℕ → Worker
  waiting : Worker
  exited : Worker

pub record ThreadPool : Type 0 where
  pub task : List ℕ
  pub stoped : Bool
  pub trds : List Worker
  pub owed_one : ℕ  -- calls of `push` between the unlock and `notify_one`
  pub owed_all : ℕ  -- calls of `stop` between the unlock and `notify_all`
  pub pushed : List ℕ
  pub taken : List ℕ
  pub done : List ℕ

abbrev pub workers : ℕ → List Worker
workers zero = []
workers (suc n) = checking ∷ workers n

-- The constructor, where `hardware_concurrency()` returns `n`.
unfoldable pub new_pool : ℕ → ThreadPool
new_pool n = record {
  task = [];
  stoped = false;
  trds = workers (if ltb n 1 then 4 else n);
  owed_one = 0;
  owed_all = 0;
  pushed = [];
  taken = [];
  done = [];
}

-- The critical section of `push`.
unfoldable pub push : ThreadPool → ℕ → ThreadPool
push p ts = record p {
  task = p.task ++ (ts ∷ []);
  owed_one = p.owed_one + 1;
  pushed = p.pushed ++ (ts ∷ []);
}

-- The critical section of `stop`.
unfoldable pub stop : ThreadPool → ThreadPool
stop p = record p { stoped = true; owed_all = p.owed_all + 1 }

-- A worker that is woken, by a notification or spuriously, goes back to its test.
abbrev pub wake : Worker → Worker
wake waiting = checking
wake (running t) = running t
wake checking = checking
wake exited = exited

unfoldable pub wake_at : ThreadPool → ℕ → ThreadPool
wake_at p i = record p { trds = set p.trds i checking }

-- One pass of the loop of `bind_run` by worker `i`, which holds the mutex.
unfoldable pub pass : ThreadPool → ℕ → List ℕ → ThreadPool
pass p i (ts ∷ rest) = record p {
  task = rest;
  trds = set p.trds i (running ts);
  taken = p.taken ++ (ts ∷ []);
}
pass p i [] =
    if p.stoped
    then record p { trds = set p.trds i exited }
    else record p { trds = set p.trds i waiting }

-- A step of worker `i` at the program point `w`; a worker that waits or has returned takes none.
unfoldable pub bind_run : ThreadPool → ℕ → Worker → ThreadPool
unfolding pass
bind_run p i checking = pass p i p.task
bind_run p i (running ts) = record p { trds = set p.trds i checking; done = p.done ++ (ts ∷ []) }
bind_run p i waiting = p
bind_run p i exited = p

abbrev pub is_waiting : Worker → ℕ
is_waiting waiting = 1
is_waiting checking = 0
is_waiting (running t) = 0
is_waiting exited = 0

-- A step of a pusher, of the thread that stops the pool, or of a worker.
pub data Step (p : ThreadPool) : ThreadPool → Type 0 where
  pushes : (ts : ℕ) → Step p (push p ts)
  stops : Step p (stop p)
  notify_one :
      (i : ℕ)
      → 0 < p.owed_one
      → get_elem? p.trds i ≡ some waiting
      → Step p (record (wake_at p i) { owed_one = p.owed_one - 1 })
  notify_nobody :
      0 < p.owed_one → total is_waiting p.trds ≡ 0 → Step p (record p { owed_one = p.owed_one - 1 })
  notify_all :
      0 < p.owed_all → Step p (record p { trds = map wake p.trds; owed_all = p.owed_all - 1 })
  spurious : (i : ℕ) → get_elem? p.trds i ≡ some waiting → Step p (wake_at p i)
  works : (i : ℕ) (w : Worker) → get_elem? p.trds i ≡ some w → Step p (bind_run p i w)

pub data Reach (n : ℕ) : ThreadPool → Type 0 where
  start : Reach n (new_pool n)
  next : {p q : ThreadPool} → Reach n p → Step p q → Reach n q
