-- ===== src/Buffer/Handle.antt =====
-- set/buffer/buffer.h: the constructor, the destructor and the moves of `circulation_buffer`, on a heap
-- of arrays; set/rtt/rtt_server.h, the initialisation of a member by a moved temporary.
--
-- An address is never used again, and a deleted array is `none` in the heap; deleting twice is a fault.
use ex_netlink.Base.{ℕ, Option, none, some, List, [], ◌∷◌, ◌++◌, ◌>>=◌, length, get_elem?, set}
use ex_netlink.Buffer.Defs.{Buffer, padding, zeros}

abbrev pub Heap : Type 0
Heap = List (Option (List ℕ))

-- The four members, with `buf_` as a pointer.
pub record Handle : Type 0 where
  pub buf : Option ℕ
  pub len : ℕ
  pub readindex : ℕ
  pub writeindex : ℕ

unfoldable pub array_at : Heap → Option ℕ → Option (List ℕ)
array_at h none = none
array_at h (some a) = get_elem? h a >>= λ block. block

-- The buffer that an object stands for while its array is there.
unfoldable pub view : Heap → Handle → Option Buffer
view h b = array_at h b.buf >>= λ bytes.
    some (record { buf = bytes; len = b.len; readindex = b.readindex; writeindex = b.writeindex })

unfoldable pub construct : Heap → ℕ → Heap × Handle
construct h n = (
  h ++ (some (zeros n) ∷ []),
  record { buf = some (length h); len = n; readindex = padding; writeindex = padding },
)

-- `delete[]`, which does nothing to a null pointer.
unfoldable pub delete : Heap → Option ℕ → Option Heap
delete h none = some h
delete h (some a) = array_at h (some a) >>= λ block. some (set h a none)

unfoldable pub destroy : Heap → Handle → Option Heap
destroy h b = delete h b.buf

-- The new object, and what is left of the one that it is moved from.
unfoldable pub move_construct : Handle → Handle × Handle
move_construct ot = (ot, record ot { buf = none })

-- `operator=` of another object; the array that the object had is not deleted.
unfoldable pub move_assign : Handle → Handle → Handle × Handle
move_assign this ot = (ot, record ot { buf = none })

-- `operator=` of the object itself.
unfoldable pub move_self : Handle → Handle
move_self b = record b { buf = none }

-- `rbuffer = std::move(circulation_buffer{n})` as a member's initialiser: the temporary is destroyed
-- behind it.
unfoldable pub init_member : Heap → ℕ → Option (Heap × Handle)
init_member h n =
    let (h₁, temporary) = construct h n in
    let (b, left) = move_construct temporary in destroy h₁ left >>= λ h₂. some (h₂, b)
