-- ===== src/Base/Slices.antt =====
-- Ranges of an array: reading `k` elements from index `i` on, and writing a list over it.
use Prim.Native.Nat.{ℕ, zero, suc, ◌+◌, ◌≤◌}
use mathlib.Core.Path.{◌≡◌, refl, ap}
use mathlib.Core.List.{List, [], ◌∷◌, ◌++◌}
use native.Mathlib.Omega.{arith}
use ex_netlink.Base.Lists.{length, take, drop, All}

module _ {ℓ} {A : Type ℓ} where
  abbrev pub slice : List A → ℕ → ℕ → List A
  slice [] i k = []
  slice (x ∷ xs) (suc i) k = slice xs i k
  slice (x ∷ xs) zero zero = []
  slice (x ∷ xs) zero (suc k) = x ∷ slice xs zero k

  abbrev pub overwrite : List A → ℕ → List A → List A
  overwrite [] i ys = []
  overwrite (x ∷ xs) (suc i) ys = x ∷ overwrite xs i ys
  overwrite (x ∷ xs) zero [] = x ∷ xs
  overwrite (x ∷ xs) zero (y ∷ ys) = y ∷ overwrite xs zero ys

  pub length-overwrite :
      (xs : List A) (i : ℕ) (ys : List A) → length (overwrite xs i ys) ≡ length xs
  length-overwrite [] i ys = refl
  length-overwrite (x ∷ xs) (suc i) ys = ap suc (length-overwrite xs i ys)
  length-overwrite (x ∷ xs) zero [] = refl
  length-overwrite (x ∷ xs) zero (y ∷ ys) = ap suc (length-overwrite xs zero ys)

  pub slice_none : (xs : List A) (i : ℕ) → slice xs i 0 ≡ []
  slice_none [] i = refl
  slice_none (x ∷ xs) (suc i) = slice_none xs i
  slice_none (x ∷ xs) zero = refl

  pub length-slice : (xs : List A) (i k : ℕ) → i + k ≤ length xs → length (slice xs i k) ≡ k
  length-slice [] i k h = omega arith
  length-slice (x ∷ xs) (suc i) k h = length-slice xs i k (omega arith)
  length-slice (x ∷ xs) zero zero h = refl
  length-slice (x ∷ xs) zero (suc k) h = ap suc (length-slice xs zero k (omega arith))

  pub slice_all : (xs : List A) (k : ℕ) → length xs ≤ k → slice xs 0 k ≡ xs
  slice_all [] k h = refl
  slice_all (x ∷ xs) zero h = absurd (omega arith)
  slice_all (x ∷ xs) (suc k) h = ap (λ r. x ∷ r) (slice_all xs k (omega arith))

  pub slice-overwrite_before :
      (xs : List A) (i k j : ℕ) (ys : List A)
      → i + k ≤ j
      → slice (overwrite xs j ys) i k ≡ slice xs i k
  slice-overwrite_before [] i k j ys h = refl
  slice-overwrite_before (x ∷ xs) zero zero zero [] h = refl
  slice-overwrite_before (x ∷ xs) zero zero zero (y ∷ ys) h = refl
  slice-overwrite_before (x ∷ xs) zero (suc k) zero ys h = absurd (omega arith)
  slice-overwrite_before (x ∷ xs) (suc i) k zero ys h = absurd (omega arith)
  slice-overwrite_before (x ∷ xs) (suc i) k (suc j) ys h =
      slice-overwrite_before xs i k j ys (omega arith)
  slice-overwrite_before (x ∷ xs) zero zero (suc j) ys h = refl
  slice-overwrite_before (x ∷ xs) zero (suc k) (suc j) ys h =
      ap (λ r. x ∷ r) (slice-overwrite_before xs zero k j ys (omega arith))

  pub slice-overwrite_after :
      (xs : List A) (i k j : ℕ) (ys : List A)
      → j + length ys ≤ i
      → slice (overwrite xs j ys) i k ≡ slice xs i k
  slice-overwrite_after [] i k j ys h = refl
  slice-overwrite_after (x ∷ xs) i k zero [] h = refl
  slice-overwrite_after (x ∷ xs) zero k zero (y ∷ ys) h = absurd (omega arith)
  slice-overwrite_after (x ∷ xs) (suc i) k zero (y ∷ ys) h =
      slice-overwrite_after xs i k zero ys (omega arith)
  slice-overwrite_after (x ∷ xs) zero k (suc j) ys h = absurd (omega arith)
  slice-overwrite_after (x ∷ xs) (suc i) k (suc j) ys h =
      slice-overwrite_after xs i k j ys (omega arith)

  pub slice-overwrite_at :
      (xs : List A) (j : ℕ) (ys : List A)
      → j + length ys ≤ length xs
      → slice (overwrite xs j ys) j (length ys) ≡ ys
  slice-overwrite_at [] j [] h = refl
  slice-overwrite_at [] j (y ∷ ys) h = absurd (omega arith)
  slice-overwrite_at (x ∷ xs) (suc j) ys h = slice-overwrite_at xs j ys (omega arith)
  slice-overwrite_at (x ∷ xs) zero [] h = refl
  slice-overwrite_at (x ∷ xs) zero (y ∷ ys) h =
      ap (λ r. y ∷ r) (slice-overwrite_at xs zero ys (omega arith))

  -- The indices come with equations, so that the recursion can match on them.
  pub slice_add :
      (xs : List A) (i k m j n : ℕ)
      → j ≡ i + k
      → n ≡ k + m
      → slice xs i n ≡ slice xs i k ++ slice xs j m
  slice_add [] i k m j n ej en = refl
  slice_add (x ∷ xs) (suc i) k m zero n ej en = absurd (omega arith)
  slice_add (x ∷ xs) (suc i) k m (suc j) n ej en = slice_add xs i k m j n (omega arith) en
  slice_add (x ∷ xs) zero zero m zero n ej en = ap (slice (x ∷ xs) zero) (omega arith)
  slice_add (x ∷ xs) zero zero m (suc j) n ej en = absurd (omega arith)
  slice_add (x ∷ xs) zero (suc k) m zero n ej en = absurd (omega arith)
  slice_add (x ∷ xs) zero (suc k) m (suc j) zero ej en = absurd (omega arith)
  slice_add (x ∷ xs) zero (suc k) m (suc j) (suc n) ej en =
      ap (λ r. x ∷ r) (slice_add xs zero k m j n (omega arith) (omega arith))

  pub drop-slice :
      (xs : List A) (i k m j n : ℕ) → j ≡ i + m → k ≡ m + n → drop m (slice xs i k) ≡ slice xs j n
  drop-slice [] i k zero j n ej ek = refl
  drop-slice [] i k (suc m) j n ej ek = refl
  drop-slice (x ∷ xs) (suc i) k m zero n ej ek = absurd (omega arith)
  drop-slice (x ∷ xs) (suc i) k m (suc j) n ej ek = drop-slice xs i k m j n (omega arith) ek
  drop-slice (x ∷ xs) zero k zero zero n ej ek = ap (slice (x ∷ xs) zero) (omega arith)
  drop-slice (x ∷ xs) zero k zero (suc j) n ej ek = absurd (omega arith)
  drop-slice (x ∷ xs) zero k (suc m) zero n ej ek = absurd (omega arith)
  drop-slice (x ∷ xs) zero zero (suc m) (suc j) n ej ek = absurd (omega arith)
  drop-slice (x ∷ xs) zero (suc k) (suc m) (suc j) n ej ek =
      drop-slice xs zero k m j n (omega arith) (omega arith)

  pub take-slice : (xs : List A) (i k m : ℕ) → m ≤ k → take m (slice xs i k) ≡ slice xs i m
  take-slice [] i k zero h = refl
  take-slice [] i k (suc m) h = refl
  take-slice (x ∷ xs) (suc i) k m h = take-slice xs i k m h
  take-slice (x ∷ xs) zero zero zero h = refl
  take-slice (x ∷ xs) zero zero (suc m) h = absurd (omega arith)
  take-slice (x ∷ xs) zero (suc k) zero h = refl
  take-slice (x ∷ xs) zero (suc k) (suc m) h =
      ap (λ r. x ∷ r) (take-slice xs zero k m (omega arith))

  -- A range of a range.
  pub slice-slice :
      (xs : List A) (i k m n j : ℕ)
      → j ≡ i + m
      → m + n ≤ k
      → slice (slice xs i k) m n ≡ slice xs j n
  slice-slice [] i k m n j ej h = refl
  slice-slice (x ∷ xs) (suc i) k m n zero ej h = absurd (omega arith)
  slice-slice (x ∷ xs) (suc i) k m n (suc j) ej h = slice-slice xs i k m n j (omega arith) h
  slice-slice (x ∷ xs) zero zero zero zero zero ej h = refl
  slice-slice (x ∷ xs) zero zero zero zero (suc j) ej h = absurd (omega arith)
  slice-slice (x ∷ xs) zero zero zero (suc n) j ej h = absurd (omega arith)
  slice-slice (x ∷ xs) zero zero (suc m) n j ej h = absurd (omega arith)
  slice-slice (x ∷ xs) zero (suc k) zero zero zero ej h = refl
  slice-slice (x ∷ xs) zero (suc k) zero zero (suc j) ej h = absurd (omega arith)
  slice-slice (x ∷ xs) zero (suc k) zero (suc n) zero ej h =
      ap (λ r. x ∷ r) (slice-slice xs zero k zero n zero refl (omega arith))
  slice-slice (x ∷ xs) zero (suc k) zero (suc n) (suc j) ej h = absurd (omega arith)
  slice-slice (x ∷ xs) zero (suc k) (suc m) n zero ej h = absurd (omega arith)
  slice-slice (x ∷ xs) zero (suc k) (suc m) n (suc j) ej h =
      slice-slice xs zero k m n j (omega arith) (omega arith)

  pub All-slice {κ} : (P : A → Type κ) (xs : List A) (i k : ℕ) → All P xs → All P (slice xs i k)
  All-slice P [] i k h = tt
  All-slice P (x ∷ xs) (suc i) k h = All-slice P xs i k h.1
  All-slice P (x ∷ xs) zero zero h = tt
  All-slice P (x ∷ xs) zero (suc k) h = (h.0, All-slice P xs zero k h.1)
