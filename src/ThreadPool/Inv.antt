-- ===== src/ThreadPool/Inv.antt =====
-- What holds of a `ThreadPool` in every reachable state: no task is lost, reordered or run twice, and
-- no wake-up is lost.
use ex_netlink.Base.{
  ℕ, zero, suc, ◌+◌, ◌≤◌, ◌<◌, ◌≡◌, refl, sym, subst, ap, ◌∙◌, ◌⊎◌, inl, inr, some, List, [], ◌∷◌,
  ◌++◌, map, Bool-cases, true, false, arith, ltb, if◌then◌else◌, ◌==◌, get_elem?, set, total,
  total-set, total-append, total-map, total-map_zero, length, length-append, append_assoc,
}
use ex_netlink.ThreadPool.Defs.{
  Worker, checking, running, waiting, exited, ThreadPool, workers, new_pool, push, stop, wake,
  wake_at, pass, bind_run, is_waiting, Step, pushes, stops, notify_one, notify_nobody, notify_all,
  spurious, works, Reach, start, next,
}

abbrev pub is_checking : Worker → ℕ
is_checking checking = 1
is_checking waiting = 0
is_checking (running t) = 0
is_checking exited = 0

abbrev pub is_exited : Worker → ℕ
is_exited exited = 1
is_exited waiting = 0
is_exited (running t) = 0
is_exited checking = 0

-- How often a task stands in a list, and how many workers run it.
abbrev pub is_task : ℕ → ℕ → ℕ
is_task t u = if t == u then 1 else 0

abbrev pub runs : ℕ → Worker → ℕ
runs t (running u) = is_task t u
runs t checking = 0
runs t waiting = 0
runs t exited = 0

pub record Inv (p : ThreadPool) : Type 0 where
  pub fifo : p.pushed ≡ p.taken ++ p.task
  pub accounted :
      (t : ℕ) → total (is_task t) p.taken ≡ total (is_task t) p.done + total (runs t) p.trds
  pub awake : 0 < total is_waiting p.trds → length p.task ≤ p.owed_one + total is_checking p.trds
  pub stop_heard : p.stoped ≡ true → 0 < total is_waiting p.trds → 0 < p.owed_all
  pub exits_late : 0 < total is_exited p.trds → p.stoped ≡ true

-- What a change of worker `i` from `a` to `b` does to the counts.
record Counts (xs : List Worker) (i : ℕ) (a b : Worker) : Type 0 where
  waits : total is_waiting (set xs i b) + is_waiting a ≡ total is_waiting xs + is_waiting b
  checks : total is_checking (set xs i b) + is_checking a ≡ total is_checking xs + is_checking b
  exits : total is_exited (set xs i b) + is_exited a ≡ total is_exited xs + is_exited b

counts : (xs : List Worker) (i : ℕ) (a b : Worker) → get_elem? xs i ≡ some a → Counts xs i a b
counts xs i a b h = record {
  waits = total-set is_waiting xs i a b h;
  checks = total-set is_checking xs i a b h;
  exits = total-set is_exited xs i a b h;
}

wake_at-Inv :
    {p : ThreadPool} (i : ℕ) → Inv p → get_elem? p.trds i ≡ some waiting → Inv (wake_at p i)
unfolding wake_at
wake_at-Inv {p} i v h = record {
  fifo = v.fifo;
  accounted = λ t. omega (arith, v.accounted t, total-set (runs t) p.trds i waiting checking h);
  awake = λ k. omega (arith, v.awake, counts p.trds i waiting checking h);
  stop_heard = λ s k. v.stop_heard s (omega (arith, counts p.trds i waiting checking h));
  exits_late = λ k. v.exits_late (omega (arith, counts p.trds i waiting checking h));
}

exit-Inv :
    {p : ThreadPool} (i : ℕ)
    → p.task ≡ []
    → Inv p
    → get_elem? p.trds i ≡ some checking
    → p.stoped ≡ true
    → Inv (record p { trds = set p.trds i exited })
exit-Inv {p} i q v h s = record {
  fifo = v.fifo;
  accounted = λ t. omega (arith, v.accounted t, total-set (runs t) p.trds i checking exited h);
  awake = λ k. omega (arith, ap (length {A = ℕ}) q);
  stop_heard = λ _ k. v.stop_heard s (omega (arith, counts p.trds i checking exited h));
  exits_late = λ _. s;
}

wait-Inv :
    {p : ThreadPool} (i : ℕ)
    → p.task ≡ []
    → Inv p
    → get_elem? p.trds i ≡ some checking
    → p.stoped ≡ false
    → Inv (record p { trds = set p.trds i waiting })
wait-Inv {p} i q v h s = record {
  fifo = v.fifo;
  accounted = λ t. omega (arith, v.accounted t, total-set (runs t) p.trds i checking waiting h);
  awake = λ k. omega (arith, ap (length {A = ℕ}) q);
  stop_heard = λ r k. absurd (cc);
  exits_late = λ k. v.exits_late (omega (arith, counts p.trds i checking waiting h));
}

pass-Inv :
    {p : ThreadPool} (i : ℕ) (queue : List ℕ)
    → p.task ≡ queue
    → Inv p
    → get_elem? p.trds i ≡ some checking
    → Inv (pass p i queue)
unfolding pass
pass-Inv {p} i (ts ∷ rest) q v h = record {
  fifo = v.fifo ∙ ap (λ l. p.taken ++ l) q ∙ sym (append_assoc p.taken (ts ∷ []) rest);
  accounted = λ t. omega (
    arith,
    v.accounted t,
    total-set (runs t) p.trds i checking (running ts) h,
    total-append (is_task t) p.taken (ts ∷ []),
  );
  awake =
      λ k. omega (arith, v.awake, counts p.trds i checking (running ts) h, ap (length {A = ℕ}) q);
  stop_heard = λ s k. v.stop_heard s (omega (arith, counts p.trds i checking (running ts) h));
  exits_late = λ k. v.exits_late (omega (arith, counts p.trds i checking (running ts) h));
}
pass-Inv {p} i [] q v h = elim (Bool-cases p.stoped) [
  | inl s ↦
      subst
        (λ c. Inv (
          if c
          then record p { trds = set p.trds i exited }
          else record p { trds = set p.trds i waiting }))
        (sym s) (exit-Inv i q v h s)
  | inr s ↦
      subst
        (λ c. Inv (
          if c
          then record p { trds = set p.trds i exited }
          else record p { trds = set p.trds i waiting }))
        (sym s) (wait-Inv i q v h s)
]

works-Inv :
    {p : ThreadPool} (i : ℕ) (w : Worker)
    → Inv p
    → get_elem? p.trds i ≡ some w
    → Inv (bind_run p i w)
unfolding bind_run
works-Inv {p} i checking v h = pass-Inv i p.task refl v h
works-Inv {p} i (running ts) v h = record {
  fifo = v.fifo;
  accounted = λ t. omega (
    arith,
    v.accounted t,
    total-set (runs t) p.trds i (running ts) checking h,
    total-append (is_task t) p.done (ts ∷ []),
  );
  awake = λ k. omega (arith, v.awake, counts p.trds i (running ts) checking h);
  stop_heard = λ s k. v.stop_heard s (omega (arith, counts p.trds i (running ts) checking h));
  exits_late = λ k. v.exits_late (omega (arith, counts p.trds i (running ts) checking h));
}
works-Inv i waiting v h = v
works-Inv i exited v h = v

is_waiting-wake : (w : Worker) → is_waiting (wake w) ≡ 0
is_waiting-wake w = ground arith

is_exited-wake : (w : Worker) → is_exited (wake w) ≡ is_exited w
is_exited-wake w = ground arith

runs-wake : (t : ℕ) (w : Worker) → runs t (wake w) ≡ runs t w
runs-wake t w = ground arith

nobody-waits : (xs : List Worker) → total is_waiting (map wake xs) ≡ 0
nobody-waits = total-map_zero is_waiting wake is_waiting-wake

Step-Inv : {p q : ThreadPool} → Step p q → Inv p → Inv q
unfolding push stop wake_at
Step-Inv {p} (pushes ts) v = record {
  fifo = ap (λ l. l ++ (ts ∷ [])) v.fifo ∙ append_assoc p.taken p.task (ts ∷ []);
  accounted = v.accounted;
  awake = λ k. omega (arith, v.awake k, length-append {0} p.task (ts ∷ []));
  stop_heard = v.stop_heard;
  exits_late = v.exits_late;
}
Step-Inv stops v = record {
  fifo = v.fifo;
  accounted = v.accounted;
  awake = v.awake;
  stop_heard = λ _ _. omega arith;
  exits_late = λ _. refl;
}
Step-Inv {p} (notify_one i k h) v = record {
  fifo = v.fifo;
  accounted = λ t. omega (arith, v.accounted t, total-set (runs t) p.trds i waiting checking h);
  awake = λ w. omega (arith, v.awake, counts p.trds i waiting checking h);
  stop_heard = λ s w. v.stop_heard s (omega (arith, counts p.trds i waiting checking h));
  exits_late = λ w. v.exits_late (omega (arith, counts p.trds i waiting checking h));
}
Step-Inv {p} (notify_nobody k none_waits) v = record {
  fifo = v.fifo;
  accounted = v.accounted;
  awake = λ w. absurd (omega arith);
  stop_heard = λ s w. absurd (omega arith);
  exits_late = v.exits_late;
}
Step-Inv {p} (notify_all k) v = record {
  fifo = v.fifo;
  accounted =
      λ t. omega (arith, v.accounted t, total-map (runs t) (runs t) wake (runs-wake t) p.trds);
  awake = λ w. absurd (omega (arith, nobody-waits p.trds));
  stop_heard = λ s w. absurd (omega (arith, nobody-waits p.trds));
  exits_late =
      λ w. v.exits_late (omega (arith, total-map is_exited is_exited wake is_exited-wake p.trds));
}
Step-Inv (spurious i h) v = wake_at-Inv i v h
Step-Inv (works i w h) v = works-Inv i w v h

total-workers : (w : Worker → ℕ) (n : ℕ) → w checking ≡ 0 → total w (workers n) ≡ 0
total-workers w zero h = refl
total-workers w (suc n) h = omega (arith, h, total-workers w n h)

new_pool-Inv : (n : ℕ) → Inv (new_pool n)
unfolding new_pool
new_pool-Inv n = record {
  fifo = refl;
  accounted = λ t. omega (arith, total-workers (runs t) (if ltb n 1 then 4 else n) refl);
  awake = λ k. omega arith;
  stop_heard = λ s k. absurd (cc);
  exits_late = λ k. absurd (omega (arith, total-workers is_exited (if ltb n 1 then 4 else n) refl));
}

-- Every state that the pool can reach satisfies the invariant: the tasks taken and then the queue
-- are the tasks pushed, in order; each task taken is finished or running, as often as it was taken;
-- and while a worker waits, there are at most as many queued tasks as workers about to look at the
-- queue and pushers about to notify.
pub Reach-Inv : {n : ℕ} {p : ThreadPool} → Reach n p → Inv p
Reach-Inv {n} start = new_pool-Inv n
Reach-Inv (next r s) = Step-Inv s (Reach-Inv r)

-- A worker that is about to look at the queue, or to finish a task.
abbrev pub is_active : Worker → ℕ
is_active checking = 1
is_active (running t) = 1
is_active waiting = 0
is_active exited = 0

split_workers :
    (xs : List Worker) → total is_active xs + (total is_waiting xs + total is_exited xs) ≡ length xs
split_workers [] = refl
split_workers (checking ∷ xs) = omega (arith, split_workers xs)
split_workers (running t ∷ xs) = omega (arith, split_workers xs)
split_workers (waiting ∷ xs) = omega (arith, split_workers xs)
split_workers (exited ∷ xs) = omega (arith, split_workers xs)

checking-le-active : (xs : List Worker) → total is_checking xs ≤ total is_active xs
checking-le-active [] = omega arith
checking-le-active (checking ∷ xs) = omega (arith, checking-le-active xs)
checking-le-active (running t ∷ xs) = omega (arith, checking-le-active xs)
checking-le-active (waiting ∷ xs) = omega (arith, checking-le-active xs)
checking-le-active (exited ∷ xs) = omega (arith, checking-le-active xs)

-- No wake-up is lost: in a reachable state where no notification is outstanding and no worker is
-- checking or running, either every worker waits, the queue is empty and no stop was requested, or
-- every worker has returned.
pub no_lost_wakeup :
    {n : ℕ} {p : ThreadPool}
    → Reach n p
    → p.owed_one ≡ 0
    → p.owed_all ≡ 0
    → total is_active p.trds ≡ 0
    → ((total is_waiting p.trds ≡ length p.trds) × (length p.task ≡ 0) × (p.stoped ≡ false))
      ⊎ (total is_exited p.trds ≡ length p.trds)
no_lost_wakeup {p = p} r one all none_active =
    ground (arith, Reach-Inv r, split_workers p.trds, checking-le-active p.trds)

-- No task is lost or run twice: in every reachable state, each task has been pushed as often as it is
-- finished, running or queued, all together.
pub tasks_conserved :
    {n : ℕ} {p : ThreadPool}
    → Reach n p
    → (t : ℕ)
    → total (is_task t) p.pushed
      ≡ total (is_task t) p.done + total (runs t) p.trds + total (is_task t) p.task
tasks_conserved {p = p} r t = omega (
  arith,
  ap (total (is_task t)) (Reach-Inv r).fifo,
  total-append (is_task t) p.taken p.task,
  (Reach-Inv r).accounted t,
)
