-- ===== src/Sso/Defs.antt =====
-- set/str/bar_view.h: the context of `SsoString`, and its constructor.
use ex_netlink.Base.{
  ℕ, suc, ◌+◌, ◌%◌, ◌^◌, Option, none, some, List, [], ◌∷◌, ◌++◌, ltb, leb, ◌==◌, if◌then◌else◌,
  length, overwrite,
}

-- `locl_cache_len` where a pointer has 8 bytes; the cache has one byte more.
abbrev pub locl_cache_len : ℕ
locl_cache_len = 19

-- The union: the cache and the capacity share their bytes.
pub data Inner : Type 0 where
  cache : List ℕ → Inner
  capacity : ℕ → Inner

-- `data` and `len` are `none` where nothing has been stored in them. `len` and the capacity have 32
-- bits.
pub record Context : Type 0 where
  pub data_block : Option (List ℕ)
  pub len : Option ℕ
  pub inner : Inner

abbrev pub with_cache : List ℕ → Context
with_cache bytes = record { data_block = none; len = none; inner = cache bytes }

-- A write of one byte into the cache; one outside of it is a fault.
unfoldable pub put_byte : List ℕ → ℕ → ℕ → Option Context
put_byte bytes i b =
    if ltb i (suc locl_cache_len) then some (with_cache (overwrite bytes i (b ∷ []))) else none

-- `strcpy`, and the byte behind its end.
unfoldable pub store_short : List ℕ → List ℕ → ℕ → Option Context
store_short garbage str n = put_byte (overwrite garbage 0 (str ++ (0 ∷ []))) (n + 1) 0

-- The constructor, on the bytes of `str` before its end. `garbage` is in the object before, and
-- `fresh` in the new block, to which nothing is copied. `n` has 64 bits.
unfoldable pub sso_string : (ℕ → List ℕ) → List ℕ → List ℕ → ℕ → Option Context
sso_string fresh garbage str n =
    if length str == n
    then (if leb n locl_cache_len
        then store_short garbage str n
        else some (record {
          data_block = some (fresh n);
          len = some (n % 2 ^ 32);
          inner = capacity (n % 2 ^ 32);
        }))
    else none
