-- ===== src/ProcessPool/Defs.antt =====
-- set/process_pool/main.cpp and Billboard.h.
use ex_netlink.Base.{
  ℕ, Option, none, some, List, [], ◌∷◌, not, ◌||◌, ◌==◌, leb, if◌then◌else◌, take,
}

-- `Billboard`: the pair of sockets, the thread that made it, and the end in use; `closed` is a log.
pub record Billboard : Type 0 where
  pub communication_0 : ℕ
  pub communication_1 : ℕ
  pub thread_id : ℕ
  pub fd : ℕ
  pub closed : List ℕ

unfoldable pub new_billboard : ℕ → ℕ → ℕ → Billboard
new_billboard a b current = record {
  communication_0 = a;
  communication_1 = b;
  thread_id = current;
  fd = 0;
  closed = [];
}

-- `start`, in a process whose current thread is `current`.
unfoldable pub start : ℕ → Billboard → Billboard
start current b =
    if b.thread_id == current
    then record b { closed = b.communication_0 ∷ b.closed; fd = b.communication_1 }
    else record b {
      closed = b.communication_1 ∷ b.closed;
      fd = b.communication_0;
      thread_id = current;
    }

-- The constructor of `ProcessHandle`: the member starts as two characters, and each round of the loop
-- assigns one character to the whole string.
unfoldable pub assign_each : List ℕ → List ℕ → List ℕ
assign_each name [] = name
assign_each name (c ∷ cs) = assign_each (c ∷ []) cs

abbrev pub max_process_name : ℕ
max_process_name = 20

unfoldable pub process_name : List ℕ → List ℕ
process_name name = assign_each (0 ∷ max_process_name ∷ []) (take max_process_name name)

-- `invoke`: the result of the function, or -1, which is `none`, if it throws.
unfoldable pub invoke : Option ℕ → Option ℕ
invoke none = none
invoke (some res) = some res

-- `process_seq_` and `process_`, by the number in the name.
pub record Pool : Type 0 where
  pub process_seq : ℕ
  pub process : List (ℕ × ℕ)

unfoldable pub new_pool : Pool
new_pool = record { process_seq = 0; process = [] }

-- `insert` of an unordered map leaves an entry that it has.
unfoldable pub insert : ℕ → ℕ → List (ℕ × ℕ) → List (ℕ × ℕ)
insert k v [] = (k, v) ∷ []
insert k v ((j, w) ∷ t) = if k == j then (j, w) ∷ t else (j, w) ∷ insert k v t

pub data Outcome : Type 0 where
  null : Pool → Outcome
  handle : Pool → ℕ → Billboard → Outcome
  exits : Billboard → Option ℕ → Outcome

-- In the parent fork(2) returns a number other than 0, in the child 0, where the thread is `child`.
unfoldable pub new_process : ℕ → ℕ → ℕ → ℕ → Billboard → Option ℕ → ℕ → Pool → Outcome
new_process current gettid child child_id b result h p =
    if not (current == gettid) || leb 4 p.process_seq
    then null p
    else (if child_id == 0
        then exits (start child b) (invoke result)
        else handle (record p { process = insert p.process_seq h p.process }) h (start current b))
