-- ===== src/Buffer/Defs.antt =====
-- set/buffer/buffer.h: the members of `circulation_buffer` and its operations on indices and bytes.
use ex_netlink.Bytes.{le_value, network2host}
use ex_netlink.Base.{
  ℕ, zero, suc, ◌+◌, ◌*◌, ◌%◌, ◌^◌, Option, none, some, List, [], ◌∷◌, ◌&&◌, ltb, leb,
  if◌then◌else◌, ◌>>=◌, add64, sub64, mul64, length, take, drop, slice, overwrite,
}

-- `padding`
abbrev pub padding : ℕ
padding = 4

-- The members `buf_`, `length_`, `readindex_`, `writeindex_`.
pub record Buffer : Type 0 where
  pub buf : List ℕ
  pub len : ℕ
  pub readindex : ℕ
  pub writeindex : ℕ

abbrev pub zeros : ℕ → List ℕ
zeros zero = []
zeros (suc n) = 0 ∷ zeros n

-- The constructor: `new uint8_t[length]{}` is zeroed.
unfoldable pub circulation_buffer : ℕ → Buffer
circulation_buffer n = record { buf = zeros n; len = n; readindex = padding; writeindex = padding }

-- Reading `k` bytes at index `i`, and writing bytes there.
unfoldable pub copy_out : List ℕ → ℕ → ℕ → Option (List ℕ)
copy_out buf i k = if leb (i + k) (length buf) then some (slice buf i k) else none

unfoldable pub copy_in : List ℕ → ℕ → List ℕ → Option (List ℕ)
copy_in buf i bytes =
    if leb (i + length bytes) (length buf) then some (overwrite buf i bytes) else none

unfoldable pub readed_size : Buffer → ℕ
readed_size b =
    if ltb b.writeindex b.readindex
    then add64 (sub64 b.len b.readindex) b.writeindex
    else sub64 b.writeindex b.readindex

unfoldable pub writed_size : Buffer → ℕ
writed_size b =
    if leb b.writeindex (sub64 b.readindex padding)
    then sub64 (sub64 b.readindex padding) b.writeindex
    else sub64 (add64 (sub64 b.len b.writeindex) b.readindex) padding

unfoldable pub retrieve_all : Buffer → Buffer
retrieve_all b = record b { readindex = padding; writeindex = padding }

-- The two moves of `relocation_location`, in the order of its assignments: in the first,
-- `readindex_` is set before `writeindex_` is computed from it.
unfoldable pub relocate_front : Buffer → Option Buffer
relocate_front b = do
  t ← copy_out b.buf 0 b.writeindex
  u ← copy_out b.buf (sub64 b.readindex padding) (add64 (sub64 b.len b.readindex) padding)
  buf₁ ← copy_in b.buf 0 u
  buf₂ ← copy_in buf₁ (add64 (sub64 b.len b.readindex) padding) t
  some (record b {
    buf = buf₂;
    readindex = padding;
    writeindex = add64 (sub64 b.len padding) b.writeindex;
  })

unfoldable pub relocate_back : Buffer → Option Buffer
relocate_back b = do
  t ← copy_out b.buf (sub64 b.readindex padding) (add64 (sub64 b.len b.readindex) padding)
  u ← copy_out b.buf 0 b.writeindex
  buf₁ ← copy_in b.buf (add64 (sub64 b.len b.readindex) padding) u
  buf₂ ← copy_in buf₁ 0 t
  some (record b {
    buf = buf₂;
    readindex = padding;
    writeindex = add64 (add64 (sub64 b.len b.readindex) b.writeindex) padding;
  })

unfoldable pub relocation_location : Buffer → Option Buffer
relocation_location b =
    if ltb b.writeindex b.readindex
    then (if ltb b.writeindex (sub64 b.len b.readindex) then relocate_front b else relocate_back b)
    else some b

-- `make_memory` once the bytes are in one piece: copy them to the new array.
unfoldable pub reallocate : (ℕ → List ℕ) → Buffer → ℕ → Option Buffer
reallocate fresh b n = do
  let new_length = add64 b.len (mul64 (sub64 n (writed_size b)) 2)
  bytes ← copy_out b.buf (sub64 b.readindex padding) b.writeindex
  new_buf ← copy_in (fresh new_length) 0 bytes
  some (record b { buf = new_buf; len = new_length })

unfoldable pub make_memory : (ℕ → List ℕ) → Buffer → ℕ → Option Buffer
make_memory fresh b n =
    if ltb n (writed_size b) then some b else relocation_location b >>= λ c. reallocate fresh c n

-- The two ways in which `append` writes once there is room: at the write index in one piece, and
-- round the end of the array.
unfoldable pub store_straight : Buffer → List ℕ → Option Buffer
store_straight b bytes = do
  buf₁ ← copy_in b.buf b.writeindex bytes
  some (record b { buf = buf₁; writeindex = add64 b.writeindex (length bytes) })

unfoldable pub store_around : Buffer → List ℕ → Option Buffer
store_around b bytes = do
  buf₁ ← copy_in b.buf b.writeindex (take (sub64 b.len b.writeindex) bytes)
  buf₂ ← copy_in buf₁ 0 (drop (sub64 b.len b.writeindex) bytes)
  some (record b { buf = buf₂; writeindex = add64 (sub64 (length bytes) b.len) b.writeindex })

unfoldable pub store : Buffer → List ℕ → Option Buffer
store b bytes =
    if leb b.readindex b.writeindex && leb (length bytes) (sub64 b.len b.writeindex)
    then store_straight b bytes
    else if ltb b.writeindex b.readindex
    then store_straight b bytes
    else store_around b bytes

unfoldable pub append : (ℕ → List ℕ) → Buffer → List ℕ → Option Buffer
append fresh b bytes = do
  c ← if ltb (writed_size b) (length bytes) then make_memory fresh b (length bytes) else some b
  store c bytes

unfoldable pub skip : Buffer → ℕ → Option Buffer
skip b n =
    if leb n (readed_size b)
    then some (
        if ltb n (readed_size b)
        then (if ltb b.writeindex b.readindex
            then (if ltb n (sub64 b.len b.readindex)
                then record b { readindex = add64 b.readindex n }
                else record b { readindex = add64 (sub64 n b.len) b.readindex })
            else record b { readindex = add64 b.readindex n })
        else retrieve_all b)
    else none

-- `l + (r << (n * 8))` in a T of `w` bytes. A shift by the full width is undefined for a T as wide
-- as `int` (4 bytes) or wider; a narrower one is promoted to `int` first.
unfoldable pub join_bytes : ℕ → ℕ → ℕ → ℕ → Option ℕ
join_bytes w n l r = if leb 4 w && leb w n then none else some ((l + r * 256 ^ n) % 256 ^ w)

-- `peek<T>()` for a T of `w` bytes where the unread bytes go round the end: the branch that reads
-- both ends of the array, with its `re_size`.
unfoldable pub peek_both : ℕ → ℕ → Buffer → Option ℕ
peek_both w re_size b = do
  l ← copy_out b.buf b.readindex re_size
  r ← copy_out b.buf 0 (sub64 w re_size)
  join_bytes w re_size (le_value l) (le_value r)

unfoldable pub peek_raw : ℕ → Buffer → Option ℕ
peek_raw w b = copy_out b.buf b.readindex w >>= λ bytes. some (le_value bytes)

unfoldable pub peek_wrapped : ℕ → Buffer → Option ℕ
peek_wrapped w b =
    if ltb w (sub64 b.len b.readindex)
    then peek_raw w b
    else peek_both w (sub64 b.len b.readindex) b

unfoldable pub peek : ℕ → Buffer → Option ℕ
peek w b =
    if leb w (readed_size b)
    then ((if ltb b.writeindex b.readindex then peek_wrapped w b else peek_raw w b) >>= λ be16.
        some (network2host w be16))
    else none
