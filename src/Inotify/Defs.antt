-- ===== src/Inotify/Defs.antt =====
-- set/inotify/main.cpp: the events that epoll_wait(2) gives, and the walk over the bytes read.
use ex_netlink.Base.{
  ℕ, zero, suc, ◌+◌, Option, none, some, List, [], ◌∷◌, ◌++◌, Bool, ltb, ◌==◌, if◌then◌else◌, ◌>>=◌,
}

-- `EVENT_SIZE`, the size of a struct inotify_event.
abbrev pub event_size : ℕ
event_size = 16

pub data Flag : Type 0 where
  in_create in_delete in_modify in_ignored in_moved_to in_open in_close in_isdir : Flag

-- The texts that it prints, each with the name of the event.
pub data Text : Type 0 where
  just_name file_created dir_created file_deleted dir_deleted file_modified dir_modified ignored
        moved_to :
      Text

pub record Line : Type 0 where
  pub text : Text
  pub name : List ℕ

abbrev pub either : Bool → Text → Text → Text
either is_dir d f = if is_dir then d else f

-- By whether the mask has a flag. The last three branches print one text.
unfoldable pub describe : (Flag → Bool) → List Text
describe has =
    if has in_create
    then either (has in_isdir) dir_created file_created ∷ []
    else if has in_delete
    then either (has in_isdir) dir_deleted file_deleted ∷ []
    else if has in_modify
    then either (has in_isdir) dir_modified file_modified ∷ []
    else if has in_ignored
    then ignored ∷ []
    else if has in_moved_to
    then moved_to ∷ []
    else if has in_open
    then moved_to ∷ []
    else if has in_close
    then moved_to ∷ []
    else []

abbrev named : List ℕ → List Text → List Line
named name [] = []
named name (t ∷ ts) = record { text = t; name = name } ∷ named name ts

module _ (event_len : ℕ → ℕ) (has : ℕ → Flag → Bool) (event_name : ℕ → List ℕ) where
  -- What is printed for the event at index `i`.
  unfoldable pub report : ℕ → List Line
  report i =
      if event_len i == 0
      then named (event_name i) (describe (has i))
      else record { text = just_name; name = event_name i }
        ∷ named (event_name i) (describe (has i))

  -- The `while` loop: the index behind it, and the lines; the first argument is fuel.
  unfoldable pub walk : ℕ → ℕ → ℕ → Option (ℕ × List Line)
  walk zero len i = none
  walk (suc fuel) len i =
      let rest = walk fuel len (i + (event_size + event_len i)) in
      if ltb i len then (rest >>= λ (j, lines). some (j, report i ++ lines)) else some (i, [])

  -- `read` of `len` bytes, or an error, which leaves the index.
  unfoldable pub read_events : ℕ → Option ℕ → Option (ℕ × List Line)
  read_events i none = some (i, [])
  read_events i (some len) = walk (suc len) len i

  module _ (readable : ℕ → Bool) (reads : ℕ → Option ℕ) where
    -- The body of the `for` loop at index `i`, which it shares with the `while` loop.
    unfoldable pub handle : ℕ → Option (ℕ × List Line)
    handle i = if readable i then read_events i (reads i) else some (i, [])

    -- The `for` loop; the first argument is fuel.
    unfoldable pub pass : ℕ → ℕ → ℕ → Option (List Line)
    pass zero nfds i = none
    pass (suc fuel) nfds i =
        if ltb i nfds
        then (handle i >>= λ (j, lines). pass fuel nfds (suc j) >>= λ more. some (lines ++ more))
        else some []
