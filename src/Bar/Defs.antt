-- ===== src/Bar/Defs.antt =====
-- set/str/bar.h: the members of `Bar`, its constructors, and what appends to it.
use ex_netlink.Base.{
  ℕ, ◌+◌, Option, none, some, List, [], ◌∷◌, ◌++◌, ltb, leb, ◌==◌, if◌then◌else◌, ◌>>=◌, add64,
  mul64, length, slice, overwrite, get_elem?, set,
}

abbrev pub Store : Type 0
Store = List (Option (List ℕ))

-- The members `data_`, `capacity_`, `len_`.
pub record Bar : Type 0 where
  pub data_ : Option ℕ
  pub capacity : ℕ
  pub len : ℕ

-- The block that a pointer points to, if it has not been freed.
unfoldable pub live : Store → Option ℕ → Option (List ℕ)
live h none = none
live h (some a) = get_elem? h a >>= λ block. block

unfoldable pub put : Store → Option ℕ → List ℕ → Store
put h none block = h
put h (some a) block = set h a (some block)

-- memcpy(3) out of a block, and into one.
unfoldable pub read : Store → Option ℕ → ℕ → Option (List ℕ)
read h p n = live h p >>= λ block. if leb n (length block) then some (slice block 0 n) else none

unfoldable pub write : Store → Option ℕ → ℕ → List ℕ → Option Store
write h p i bytes = live h p >>= λ block.
    if leb (i + length bytes) (length block) then some (put h p (overwrite block i bytes)) else none

-- `delete` of a pointer that is not null.
unfoldable pub free : Store → Option ℕ → Option Store
free h none = some h
free h (some a) = live h (some a) >>= λ block. some (set h a none)

-- The move constructor leaves the other object's pointer as it is.
unfoldable pub move : Bar → Bar
move other = other

-- The destructor, of which the store alone is seen.
unfoldable pub destroy : Store → Bar → Option Store
destroy h b = free h b.data_

-- `copy_swap`: the object gets the members of `other`, which is left empty and then destroyed.
unfoldable pub copy_swap : Store → Bar → Option (Store × Bar)
copy_swap h other =
    destroy h (record { data_ = none; capacity = 0; len = 0 }) >>= λ h'. some (h', other)

-- The writes of the two appends.
unfoldable pub put_char : ℕ → Store × Bar → Option (Store × Bar)
put_char c (h, b) = do
  h' ← write h b.data_ (add64 b.len 1) (c ∷ [])
  some (h', record b { len = add64 b.len 1 })

unfoldable pub put_str : List ℕ → Store × Bar → Option (Store × Bar)
put_str str (h, b) = write h b.data_ b.len str >>= λ h'. some (h', b)

module _ (fresh : ℕ → List ℕ) where
  -- `Bar(capacity, str, len)`, with the bytes of another block.
  unfoldable pub construct : Store → ℕ → Option ℕ → ℕ → Option (Store × Bar)
  construct h capacity str len = do
    bytes ← read h str len
    h' ← write (h ++ (some (fresh capacity) ∷ [])) (some (length h)) 0 bytes
    some (h', record { data_ = some (length h); capacity = capacity; len = len })

  -- `copy_swap(std::move(Bar(capacity, data_, len_)))`: the temporary, from which `other` has been
  -- moved, is destroyed at the end.
  unfoldable pub grow : Store → Bar → ℕ → Option (Store × Bar)
  grow h b capacity = construct h capacity b.data_ b.len >>= λ r.
      copy_swap r.0 (move r.1) >>= λ s. destroy s.0 r.1 >>= λ h'. some (h', s.1)

  -- `append(c)`
  unfoldable pub append_char : Store → Bar → ℕ → Option (Store × Bar)
  append_char h b c = do
    r ← if b.len == b.capacity then grow h b (mul64 b.capacity 2) else some (h, b)
    put_char c r

  -- `append(str, len)`
  unfoldable pub append_str : Store → Bar → List ℕ → Option (Store × Bar)
  append_str h b str = do
    r ←
        if ltb b.capacity (add64 b.len (length str))
        then grow h b (add64 (mul64 b.capacity 2) (length str))
        else some (h, b)
    put_str str r
