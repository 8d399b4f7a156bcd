-- ===== src/Sso/Cases.antt =====
-- What `SsoString` holds, by the length of the string.
use ex_netlink.Base.{
  ℕ, ◌+◌, ◌%◌, ◌^◌, ◌≤◌, ◌≡◌, sym, ap, ap₂, ◌∙◌, ◌⊎◌, inl, inr, none, some, List, [], ◌∷◌, ◌++◌,
  append_assoc, arith, length, length-append, overwrite, length-overwrite, slice,
  slice-overwrite_before, slice-overwrite_at, slice_add, dec_le, ℕ_discrete,
}
use ex_netlink.Sso.Defs.{cache, capacity, put_byte, store_short, sso_string}

-- The bytes of the cache after a string of at most 18 bytes: the string and two zero bytes.
stored_bytes :
    (garbage str : List ℕ)
    → length garbage ≡ 20
    → length str ≤ 18
    → slice
        (overwrite (overwrite garbage 0 (str ++ (0 ∷ []))) (length str + 1) (0 ∷ []))
        0
        (length str + 2)
      ≡ str ++ (0 ∷ 0 ∷ [])
stored_bytes garbage str g h =
    slice_add (overwrite copied (length str + 1) (0 ∷ [])) 0 (length str + 1) 1 (length str + 1) _
      (omega arith) (omega arith)
    ∙ ap₂ ◌++◌
        (slice-overwrite_before copied 0 (length str + 1) (length str + 1) (0 ∷ []) (omega arith)
          ∙ ap (slice copied 0) (sym ended)
          ∙ slice-overwrite_at garbage 0 (str ++ (0 ∷ [])) (omega (arith, ended)))
        (slice-overwrite_at copied (length str + 1) (0 ∷ [])
          (omega (arith, length-overwrite garbage 0 (str ++ (0 ∷ [])))))
    ∙ append_assoc str (0 ∷ []) (0 ∷ [])
  where
    copied : List ℕ
    copied = overwrite garbage 0 (str ++ (0 ∷ []))

    ended : length (str ++ (0 ∷ [])) ≡ length str + 1
    ended = length-append str (0 ∷ [])

-- The constructor, on a string and its length: up to 18 bytes it keeps the string in its cache, with
-- two zero bytes behind, and stores no length; at 19 it writes a byte past the cache; from 20 on it
-- stores the low 32 bits of the length, as length and as capacity, and a block of the whole length to
-- which the string is not copied, so that two strings of one length cannot be told apart.
pub sso_string-cases :
    (fresh : ℕ → List ℕ) (garbage str : List ℕ)
    → length garbage ≡ 20
    → ((length str ≤ 18)
        × ((bytes : List ℕ) × (sso_string fresh garbage str (length str)
              ≡ some (record { data_block = none; len = none; inner = cache bytes }))
            × (slice bytes 0 (length str + 2) ≡ str ++ (0 ∷ 0 ∷ []))))
      ⊎ ((length str ≡ 19) × (sso_string fresh garbage str (length str) ≡ none))
      ⊎ ((20 ≤ length str)
          × (sso_string fresh garbage str (length str)
              ≡ some (record {
                data_block = some (fresh (length str));
                len = some (length str % 2 ^ 32);
                inner = capacity (length str % 2 ^ 32);
              })))
unfolding sso_string store_short put_byte
sso_string-cases fresh garbage str g = elim (dec_le (length str) 18) [
  | yes h ↦ inl (h, (_, ground arith, stored_bytes garbage str g h))
  | no h ↦ elim (ℕ_discrete (length str) 19) [
    | yes e ↦ inr (inl (e, ground arith))
    | no n ↦ inr (inr (omega arith, ground arith))
  ]
]
