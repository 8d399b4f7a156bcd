-- ===== src/ProcessPool/Handle.antt =====
-- set/process_pool/main.cpp: the class `ProcessHandle`, and `main`.
use ex_netlink.Base.{ℕ, Option, none, some, List, [], ◌∷◌, ◌==◌, if◌then◌else◌}
use ex_netlink.ProcessPool.Defs.{
  Billboard, Pool, new_pool, Outcome, null, handle, exits, process_name, new_process,
}

-- `user_data_`, a `std::any`: an object of the type with this number, or nothing.
pub record UserData : Type 0 where
  pub type : ℕ
  pub value : ℕ

-- What a function that is called with the user data and the billboard returns, or `none` if it throws.
abbrev pub ProcessExec : Type 0
ProcessExec = Option UserData → Billboard → Option ℕ

-- `exec_` is `none` if the std::function is empty, `billboard` if the pointer is null.
pub record ProcessHandle : Type 0 where
  pub exec : Option ProcessExec
  pub process_name : List ℕ
  pub user_data : Option UserData
  pub billboard : Option Billboard

unfoldable pub new_handle : List ℕ → Option ProcessExec → ProcessHandle
new_handle name pexec = record {
  exec = pexec;
  process_name = process_name name;
  user_data = none;
  billboard = none;
}

-- `set_exec` returns its argument, from which the function has been moved: `moved`.
unfoldable pub set_exec :
    Option ProcessExec → Option ProcessExec → ProcessHandle → ProcessHandle × Option ProcessExec
set_exec moved pexec h = (record h { exec = pexec }, moved)

unfoldable pub set_billboard : Billboard → ProcessHandle → ProcessHandle
set_billboard b h = record h { billboard = some b }

-- `none` is the use of a null pointer.
unfoldable pub get_billboard : ProcessHandle → Option Billboard
get_billboard h = h.billboard

unfoldable pub set_user_data : UserData → ProcessHandle → ProcessHandle
set_user_data d h = record h { user_data = some d }

-- `std::any_cast` to a pointer, which is null where the type is another one.
unfoldable pub cast : ℕ → Option UserData → Option ℕ
cast type none = none
cast type (some d) = if type == d.type then some d.value else none

unfoldable pub get_user_data : ℕ → ProcessHandle → Option ℕ
get_user_data type h = cast type h.user_data

unfoldable pub get_process_name : ProcessHandle → List ℕ
get_process_name h = h.process_name

-- What the call throws is caught, that of an empty function included: -1, which is `none` inside.
unfoldable pub call_exec : Option ProcessExec → Option UserData → Billboard → Option ℕ
call_exec none d b = none
call_exec (some f) d b = f d b

-- `invoke`; the outer `none` is the use of a null billboard.
unfoldable pub invoke_handle : ProcessHandle → Option (Option ℕ)
invoke_handle h = elim h.billboard [ none ↦ none | some b ↦ some (call_exec h.exec h.user_data b) ]

-- A process of `main`: its function returns 0, and the handle has the number of its place.
unfoldable pub main_process : ℕ → ℕ → ℕ → ℕ → Billboard → ℕ → Pool → Outcome
main_process current gettid child child_id b h p =
    new_process current gettid child child_id b (some 0) h p

-- The pool behind a call, in the process that goes on; `none` in a child, which exits.
unfoldable pub pool_of : Outcome → Option Pool
pool_of (null p) = some p
pool_of (handle p h b) = some p
pool_of (exits b r) = none

-- `main` makes a process for each of these handles; `child_ids` are what fork(2) returns in turn.
unfoldable pub make_all : ℕ → ℕ → ℕ → (ℕ → ℕ) → (ℕ → Billboard) → List ℕ → Pool → Option Pool
make_all current gettid child child_ids boards [] p = some p
make_all current gettid child child_ids boards (h ∷ hs) p =
    elim (pool_of (main_process current gettid child (child_ids h) (boards h) h p)) [
      | none ↦ none
      | some q ↦ make_all current gettid child child_ids boards hs q
    ]

unfoldable pub main : ℕ → ℕ → ℕ → (ℕ → ℕ) → (ℕ → Billboard) → Option Pool
main current gettid child child_ids boards =
    make_all current gettid child child_ids boards (1 ∷ 2 ∷ 3 ∷ 4 ∷ []) new_pool
