-- ===== src/Bar/Tests.antt =====
-- A string of two bytes in a block of four.
use ex_netlink.Base.{
  ℕ, ◌+◌, ◌*◌, ◌≤◌, ◌<◌, ◌≡◌, ◌≢◌, ◌⊎◌, refl, none, some, List, [], ◌∷◌, ◌++◌, add64, mul64,
  overwrite, arith,
}
use ex_netlink.Bar.{
  Store, Bar, live, put, write, grow, append_char, append_str, put_char, copy_bar, bar_of, assign,
  copy_swap, destroy, free, read,
}
use ex_netlink.Buffer.{zeros}
use ex_netlink.Buffer.Inv.{length-zeros}
use ex_netlink.Bar.Append.{append_str_lem}
use ex_netlink.Bar.Blocks.{IsValid}
use ex_netlink.Bar.Copy.{bytes_of, copy_bar-bytes_of}

abbrev fresh : ℕ → List ℕ
fresh n = []

abbrev store : Store
store = some (1 ∷ 2 ∷ 0 ∷ 0 ∷ []) ∷ []

abbrev two : Bar
two = record { data_ = some 0; capacity = 4; len = 2 }

two-IsValid : IsValid store two (1 ∷ 2 ∷ 0 ∷ 0 ∷ [])
unfolding live
two-IsValid = record { held = refl; full = refl; within = omega arith; small = omega arith }

append_str_lem_example :
    ((2 + 3 ≤ 4)
      × (append_str zeros store two (9 ∷ 9 ∷ 9 ∷ [])
          ≡ some (put store (some 0) (overwrite (1 ∷ 2 ∷ 0 ∷ 0 ∷ []) 2 (9 ∷ 9 ∷ 9 ∷ [])), two)))
    ⊎ ((4 < 2 + 3)
        × (grow zeros store two (add64 (mul64 4 2) 3)
            ≡ some (store ++ (none ∷ []), record { data_ = some 1; capacity = 2 * 4 + 3; len = 2 }))
        × (append_str zeros store two (9 ∷ 9 ∷ 9 ∷ []) ≡ none))
append_str_lem_example =
    append_str_lem zeros length-zeros (9 ∷ 9 ∷ 9 ∷ []) two-IsValid (omega arith)

-- The byte 9 lands one place behind the two bytes of the string.
one_behind :
    append_char fresh store two 9
    ≡ some (some (1 ∷ 2 ∷ 0 ∷ 9 ∷ []) ∷ [], record { data_ = some 0; capacity = 4; len = 3 })
unfolding append_char put_char write live put
one_behind = refl

-- Two strings in blocks of their own, on a malloc(3) that clears.
abbrev pair : Store
pair = some (1 ∷ 2 ∷ 0 ∷ 0 ∷ []) ∷ some (7 ∷ 8 ∷ 9 ∷ []) ∷ []

abbrev three : Bar
three = record { data_ = some 1; capacity = 3; len = 3 }

three-IsValid : IsValid pair three (7 ∷ 8 ∷ 9 ∷ [])
unfolding live
three-IsValid = record { held = refl; full = refl; within = omega arith; small = omega arith }

copy_bar-bytes_of_example :
    (h : Store) × (c : Bar) × (copy_bar zeros pair three ≡ some (h, c))
    × IsValid h c (bytes_of three (7 ∷ 8 ∷ 9 ∷ []))
    × (c.len ≡ 3)
    × (c.capacity ≡ 3)
    × IsValid h three (7 ∷ 8 ∷ 9 ∷ [])
    × (some 1 ≢ c.data_)
copy_bar-bytes_of_example =
    copy_bar-bytes_of zeros length-zeros pair three (7 ∷ 8 ∷ 9 ∷ []) three-IsValid

undefined_assignment : assign zeros pair two three ≡ none
unfolding assign copy_bar copy_swap destroy free read live bar_of
undefined_assignment = refl
