-- ===== src/Bar/Make.antt =====
-- set/str/bar.h: the public constructors, the assignment, the overloads of `append` that call the two
-- of Defs, and the accessors.
use ex_netlink.Base.{
  ℕ, zero, suc, Option, none, some, List, [], ◌∷◌, ◌++◌, ◌>>=◌, length, take, overwrite,
}
use ex_netlink.Bar.Defs.{Store, Bar, read, copy_swap, append_str}

-- `strlen` of a pointer to these bytes; `none` if there is no zero byte.
unfoldable pub strlen : List ℕ → Option ℕ
strlen [] = none
strlen (zero ∷ cs) = some 0
strlen (suc c ∷ cs) = strlen cs >>= λ n. some (suc n)

-- `size`, `capactiy` and `data`
unfoldable pub size : Bar → ℕ
size b = b.len

unfoldable pub capactiy : Bar → ℕ
capactiy b = b.capacity

unfoldable pub get_data : Bar → Option ℕ
get_data b = b.data_

module _ (fresh : ℕ → List ℕ) where
  -- `Bar(str, len)` of as many bytes as these.
  unfoldable pub bar_of : Store → List ℕ → Store × Bar
  bar_of h str = (
    h ++ (some (overwrite (fresh (length str)) 0 str) ∷ []),
    record { data_ = some (length h); capacity = length str; len = length str },
  )

  -- `Bar(str)`
  unfoldable pub bar_of_c_str : Store → List ℕ → Option (Store × Bar)
  bar_of_c_str h str = strlen str >>= λ n. some (bar_of h (take n str))

  -- `Bar(capacity)`
  unfoldable pub bar_with_capacity : Store → ℕ → Store × Bar
  bar_with_capacity h n =
      (h ++ (some (fresh n) ∷ []), record { data_ = some (length h); capacity = n; len = 0 })

  -- `Bar(other)`
  unfoldable pub copy_bar : Store → Bar → Option (Store × Bar)
  copy_bar h other = read h other.data_ other.len >>= λ str. some (bar_of h str)

  -- `operator=`: `copy_swap` takes its argument by value; then control flows off the end of a function
  -- that has a result, which is undefined.
  unfoldable pub assign : Store → Bar → Bar → Option (Store × Bar)
  assign h this other = copy_bar h other >>= λ r. copy_swap r.0 r.1 >>= λ s. none

  -- `append(str)`, `append(other)`, and `append` of a `std::string`.
  unfoldable pub append_c_str : Store → Bar → List ℕ → Option (Store × Bar)
  append_c_str h b str = strlen str >>= λ n. append_str fresh h b (take n str)

  unfoldable pub append_bar : Store → Bar → Bar → Option (Store × Bar)
  append_bar h b other = read h other.data_ other.len >>= λ str. append_str fresh h b str

  unfoldable pub append_string : Store → Bar → List ℕ → Option (Store × Bar)
  append_string h b other = append_str fresh h b other
