-- ===== src/Inotify/Tests.antt =====
-- A walk over the bytes of two events: a file was created and a directory deleted.
use ex_netlink.Base.{
  ℕ, ◌≡◌, refl, Option, some, List, [], ◌∷◌, Bool, true, false, ◌==◌, if◌then◌else◌,
}
use ex_netlink.Inotify.{
  Flag, in_create, in_delete, in_modify, in_ignored, in_moved_to, in_open, in_close, in_isdir,
  just_name, file_created, dir_deleted, describe, report, walk, read_events, handle, pass,
}
use ex_netlink.Inotify.Walk.{Events, reports, pass-Events}

abbrev name_len : ℕ → ℕ
name_len i = 16

abbrev name : ℕ → List ℕ
name i = (if i == 0 then 97 else 98) ∷ []

abbrev has : ℕ → Flag → Bool
has i in_create = i == 0
has i in_delete = i == 32
has i in_isdir = i == 32
has i in_modify = false
has i in_ignored = false
has i in_moved_to = false
has i in_open = false
has i in_close = false

abbrev read : ℕ → Option ℕ
read i = some 64

pass-Events_example :
    (is : List ℕ) × Events name_len has name 64 0 is
    × (pass name_len has name (λ _. true) read 2 1 0 ≡ some (reports name_len has name is))
pass-Events_example = pass-Events name_len has name (λ _. true) read 64 refl refl

two_events :
    pass name_len has name (λ _. true) read 2 1 0
    ≡ some (
        record { text = just_name; name = 97 ∷ [] }
        ∷ record { text = file_created; name = 97 ∷ [] }
        ∷ record { text = just_name; name = 98 ∷ [] }
        ∷ record { text = dir_deleted; name = 98 ∷ [] }
        ∷ [])
unfolding pass handle read_events walk report describe
two_events = refl
