-- ===== src/Sample/Arrays.antt =====
-- The loop over an array that ends with a null pointer.
use ex_netlink.Base.{ℕ, suc, ◌≡◌, refl, Option, none, some, List, [], ◌∷◌, ◌++◌, map}
use ex_netlink.Sample.Defs.{Line, print_each}

-- The entries with their numbers, from a first number on.
numbered {ℓ} : {A : Type ℓ} → (ℕ → A → Line) → ℕ → List A → List Line
numbered line n [] = []
numbered line n (x ∷ xs) = line n x ∷ numbered line (suc n) xs

-- Each entry before the null pointer is printed with its number, counted from one behind the start of
-- the loop, in order, and nothing behind the null pointer is read.
print_each-numbered {ℓ} :
    {A : Type ℓ} (line : ℕ → A → Line) (i : ℕ) (xs : List A) (rest : List (Option A))
    → print_each line i (map some xs ++ (none ∷ rest)) ≡ some (numbered line (suc i) xs)
unfolding print_each numbered
print_each-numbered line i [] rest = refl
print_each-numbered line i (x ∷ xs) rest = rw (print_each-numbered line (suc i) xs rest) refl
