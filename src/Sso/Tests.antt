-- ===== src/Sso/Tests.antt =====
-- Strings of 3 and of 19 bytes.
use ex_netlink.Base.{
  ℕ, zero, suc, ◌+◌, ◌%◌, ◌^◌, ◌≤◌, ◌≡◌, ◌⊎◌, refl, none, some, List, [], ◌∷◌, ◌++◌, length, slice,
}
use ex_netlink.Sso.{cache, capacity, sso_string, store_short, put_byte}
use ex_netlink.Sso.Cases.{sso_string-cases}

abbrev zeros : ℕ → List ℕ
zeros zero = []
zeros (suc n) = 0 ∷ zeros n

abbrev ones : ℕ → List ℕ
ones zero = []
ones (suc n) = 1 ∷ ones n

abbrev three : List ℕ
three = 5 ∷ 6 ∷ 7 ∷ []

sso_string-cases_example :
    ((length three ≤ 18)
      × ((bytes : List ℕ) × (sso_string zeros (ones 20) three (length three)
            ≡ some (record { data_block = none; len = none; inner = cache bytes }))
          × (slice bytes 0 (length three + 2) ≡ three ++ (0 ∷ 0 ∷ []))))
    ⊎ ((length three ≡ 19) × (sso_string zeros (ones 20) three (length three) ≡ none))
    ⊎ ((20 ≤ length three)
        × (sso_string zeros (ones 20) three (length three)
            ≡ some (record {
              data_block = some (zeros (length three));
              len = some (length three % 2 ^ 32);
              inner = capacity (length three % 2 ^ 32);
            })))
sso_string-cases_example = sso_string-cases zeros (ones 20) three refl

nineteen_ones : sso_string zeros (ones 20) (ones 19) 19 ≡ none
unfolding sso_string store_short put_byte
nineteen_ones = refl
