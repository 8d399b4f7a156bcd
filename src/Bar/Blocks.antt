-- ===== src/Bar/Blocks.antt =====
-- Blocks at the end of the store.
use ex_netlink.Base.{
  ℕ, zero, suc, ◌^◌, ◌≤◌, ◌<◌, ◌≡◌, ◌≢◌, refl, ap, inl, inr, Option, Option-cases, none, some, List,
  [], ◌∷◌, ◌++◌, length, get_elem?, set, arith,
}
use ex_netlink.Bar.Defs.{Store, Bar, live}

-- The pointer is to a block of `capacity` bytes.
pub record IsValid (h : Store) (b : Bar) (block : List ℕ) : Type 0 where
  pub held : live h b.data_ ≡ some block
  pub full : length block ≡ b.capacity
  pub within : b.len ≤ b.capacity
  pub small : b.capacity < 2 ^ 62

get_elem?-last {ℓ} :
    {A : Type ℓ} (xs : List A) (x : A) → get_elem? (xs ++ (x ∷ [])) (length xs) ≡ some x
get_elem?-last [] x = refl
get_elem?-last (y ∷ xs) x = get_elem?-last xs x

get_elem?-append {ℓ} :
    {A : Type ℓ} (xs ys : List A) (i : ℕ) (x : A)
    → get_elem? xs i ≡ some x
    → (get_elem? (xs ++ ys) i ≡ some x) × (i < length xs)
get_elem?-append [] ys i x h = cc
get_elem?-append (y ∷ xs) ys zero x h = (h, omega arith)
get_elem?-append (y ∷ xs) ys (suc i) x h =
    let (e, lt) = get_elem?-append xs ys i x h in (e, omega arith)

pub set-last {ℓ} :
    {A : Type ℓ} (xs : List A) (x y : A) → set (xs ++ (x ∷ [])) (length xs) y ≡ xs ++ (y ∷ [])
set-last [] x y = refl
set-last (z ∷ xs) x y = ap (λ t. z ∷ t) (set-last xs x y)

pub live-append :
    (h ys : Store) (p : Option ℕ) (block : List ℕ)
    → live h p ≡ some block
    → (live (h ++ ys) p ≡ some block) × (p ≢ some (length h))
unfolding live
live-append h ys none block e = cc
live-append h ys (some a) block e = elim (Option-cases (get_elem? h a)) [
  | inl z ↦ absurd (not_some (rw z at e))
  | inr (x, z) ↦
      let (found, lt) = get_elem?-append h ys a x z in
      (rw found (rw z at e), λ same. absurd (omega (arith, lt, ap (at_most a) same)))
]
  where
    not_some : none ≡ some block → ⊥
    not_some q = cc

    at_most : ℕ → Option ℕ → ℕ
    at_most d none = d
    at_most d (some n) = n

pub live-last :
    (h : Store) (block : List ℕ) → live (h ++ (some block ∷ [])) (some (length h)) ≡ some block
unfolding live
live-last h block = rw (get_elem?-last h (some block)) refl
