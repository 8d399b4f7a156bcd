-- ===== src/Base/Totals.antt =====
-- Weighted sums over a list, and what a write at one index does to them.
use Prim.Native.Nat.{ℕ, zero, suc, ◌+◌, ◌≤◌}
use mathlib.Core.Path.{◌≡◌, refl, ap}
use mathlib.Core.List.{List, [], ◌∷◌, ◌++◌, map}
use mathlib.Core.Option.{some, some-injective}
use native.Mathlib.Omega.{arith}
use ex_netlink.Base.Lists.{get_elem?, set}

module _ {ℓ} {A : Type ℓ} (w : A → ℕ) where
  abbrev pub total : List A → ℕ
  total [] = 0
  total (x ∷ xs) = w x + total xs

  pub total-append : (xs ys : List A) → total (xs ++ ys) ≡ total xs + total ys
  total-append [] ys = omega arith
  total-append (x ∷ xs) ys = omega (arith, total-append xs ys)

  pub total-set :
      (xs : List A) (i : ℕ) (x y : A)
      → get_elem? xs i ≡ some x
      → total (set xs i y) + w x ≡ total xs + w y
  total-set [] i x y h = cc
  total-set (a ∷ xs) zero x y h = omega (arith, ap w (some-injective a x h))
  total-set (a ∷ xs) (suc i) x y h = omega (arith, total-set xs i x y h)

  -- An element of positive weight makes the sum positive.
  pub total-pos : (xs : List A) (i : ℕ) (x : A) → get_elem? xs i ≡ some x → w x ≤ total xs
  total-pos [] i x h = cc
  total-pos (a ∷ xs) zero x h = omega (arith, ap w (some-injective a x h))
  total-pos (a ∷ xs) (suc i) x h = omega (arith, total-pos xs i x h)

pub total-map {ℓ} :
    {A : Type ℓ} (v w : A → ℕ) (f : A → A)
    → ((x : A) → v (f x) ≡ w x)
    → (xs : List A) → total v (map f xs) ≡ total w xs
total-map v w f h [] = refl
total-map v w f h (x ∷ xs) = omega (arith, h x, total-map v w f h xs)

pub total_add {ℓ} :
    {A : Type ℓ} (u v w : A → ℕ)
    → ((x : A) → u x + v x ≡ w x)
    → (xs : List A) → total u xs + total v xs ≡ total w xs
total_add u v w h [] = refl
total_add u v w h (x ∷ xs) = omega (arith, h x, total_add u v w h xs)

pub total-map_zero {ℓ} :
    {A : Type ℓ} (w : A → ℕ) (f : A → A)
    → ((x : A) → w (f x) ≡ 0)
    → (xs : List A) → total w (map f xs) ≡ 0
total-map_zero w f h [] = refl
total-map_zero w f h (x ∷ xs) = omega (arith, h x, total-map_zero w f h xs)
