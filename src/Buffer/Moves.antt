-- ===== src/Buffer/Moves.antt =====
-- An array belongs to one object at a time, and is deleted once.
use ex_netlink.Base.{
  ℕ, zero, suc, ◌≡◌, ◌≢◌, refl, sym, subst, ap, true, false, Bool-cases, ◌==◌, if◌then◌else◌, ◌∙◌,
  inl, inr, Option, Option-cases, none, some, List, [], ◌∷◌, ◌++◌, ◌>>=◌, length, get_elem?, set,
  arith,
}
use ex_netlink.Buffer.Defs.{circulation_buffer, zeros}
use ex_netlink.Buffer.Handle.{
  Heap, Handle, array_at, view, construct, delete, destroy, move_construct, move_assign,
  init_member,
}

at_end {ℓ} : {A : Type ℓ} (xs : List A) (x : A) → get_elem? (xs ++ (x ∷ [])) (length xs) ≡ some x
at_end [] x = refl
at_end (y ∷ xs) x = at_end xs x

in_front {ℓ} :
    {A : Type ℓ} (xs ys : List A) (i : ℕ) (x : A)
    → get_elem? xs i ≡ some x
    → get_elem? (xs ++ ys) i ≡ some x
in_front [] ys i x h = cc
in_front (a ∷ xs) ys zero x h = h
in_front (a ∷ xs) ys (suc i) x h = in_front xs ys i x h

get_elem?-set {ℓ} :
    {A : Type ℓ} (xs : List A) (i : ℕ) (x y : A)
    → get_elem? xs i ≡ some x
    → get_elem? (set xs i y) i ≡ some y
get_elem?-set [] i x y h = cc
get_elem?-set (a ∷ xs) zero x y h = refl
get_elem?-set (a ∷ xs) (suc i) x y h = get_elem?-set xs i x y h

set-unlike {ℓ} :
    {A : Type ℓ} (xs : List A) (i j : ℕ) (y : A) → i ≢ j → get_elem? (set xs i y) j ≡ get_elem? xs j
set-unlike [] i j y h = refl
set-unlike (x ∷ xs) zero zero y h = absurd (h refl)
set-unlike (x ∷ xs) zero (suc j) y h = refl
set-unlike (x ∷ xs) (suc i) zero y h = refl
set-unlike (x ∷ xs) (suc i) (suc j) y h = set-unlike xs i j y (λ e. h (ap suc e))

-- An array that is there can be deleted, and is gone then; the others stay.
delete_lem :
    (h : Heap) (a : ℕ) (bytes : List ℕ)
    → array_at h (some a) ≡ some bytes
    → (h' : Heap) × (delete h (some a) ≡ some h')
      × (array_at h' (some a) ≡ none)
      × ((b : ℕ) → a ≢ b → array_at h' (some b) ≡ array_at h (some b))
unfolding delete array_at
delete_lem h a bytes e = elim (Option-cases (get_elem? h a)) [
  | inl z ↦ absurd (not_some (rw z at e))
  | inr (x, z) ↦ (
    set h a none,
    rw (z, rw z at e) refl,
    rw (get_elem?-set h a x none z) refl,
    λ b differ. rw (set-unlike h a b none differ) refl,
  )
]
  where
    not_some : none ≡ some bytes → ⊥
    not_some q = cc

-- A move of an object with an array: the new object stands for the same buffer and the old one for
-- none; and destroying both, in either order, is no fault and ends in one heap, in which that array is
-- deleted and every other one is as it was.
pub move_construct-view :
    (h : Heap) (b : Handle) (a : ℕ) (bytes : List ℕ)
    → b.buf ≡ some a
    → array_at h (some a) ≡ some bytes
    → (view h (move_construct b).0 ≡ view h b)
      × (view h (move_construct b).1 ≡ none)
      × (h' : Heap) × ((destroy h (move_construct b).1 >>= λ k. destroy k (move_construct b).0)
          ≡ some h')
      × ((destroy h (move_construct b).0 >>= λ k. destroy k (move_construct b).1) ≡ some h')
      × ((c : ℕ) → array_at h' (some c) ≡ (if a == c then none else array_at h (some c)))
unfolding move_construct view destroy delete array_at
move_construct-view h b a bytes here live =
    let (h', gone, free, others) = delete_lem h a bytes live in
    (
      refl,
      refl,
      h',
      rw here gone,
      rw (here, gone) refl,
      λ c. elim (Bool-cases (a == c)) [
        | inl e ↦ rw e (subst (λ (i : ℕ). array_at h' (some i) ≡ none) (same a c e) free)
        | inr e ↦ rw e (others c (other a c e))
      ],
    )
  where
    same : (i j : ℕ) → (i == j) ≡ true → i ≡ j
    same i j e = ground arith

    other : (i j : ℕ) → (i == j) ≡ false → i ≢ j
    other i j e = ground arith

-- A member that is initialised by a moved temporary is the buffer of the constructor; the destructor of
-- the temporary deletes nothing, and the arrays that were there stay.
init_member-view :
    (h : Heap) (n : ℕ)
    → (h' : Heap) × (b : Handle) × (init_member h n ≡ some (h', b))
      × (view h' b ≡ some (circulation_buffer n))
      × ((c : ℕ) (bytes : List ℕ)
          → array_at h (some c) ≡ some bytes
          → array_at h' (some c) ≡ some bytes)
unfolding init_member construct move_construct destroy delete view array_at circulation_buffer
init_member-view h n = (
  (construct h n).0,
  (construct h n).1,
  refl,
  rw (at_end h (some (zeros n))) refl,
  λ c bytes e. kept c bytes (get_elem? h c) refl e,
)
  where
    kept :
        (c : ℕ) (bytes : List ℕ) (o : Option (Option (List ℕ)))
        → get_elem? h c ≡ o
        → (o >>= λ block. block) ≡ some bytes
        → (get_elem? (h ++ (some (zeros n) ∷ [])) c >>= λ block. block) ≡ some bytes
    kept c bytes none e f = cc
    kept c bytes (some x) e f = rw (in_front h _ c x e) f

-- A move to an object that has an array: behind the destructors of both objects that array is still
-- there.
move_assign-leaks :
    (h : Heap) (this ot : Handle) (a b : ℕ) (old bytes : List ℕ)
    → this.buf ≡ some a
    → ot.buf ≡ some b
    → a ≢ b
    → array_at h (some a) ≡ some old
    → array_at h (some b) ≡ some bytes
    → (h' : Heap) × ((destroy h (move_assign this ot).1 >>= λ k. destroy k (move_assign this ot).0)
        ≡ some h')
      × (array_at h' (some a) ≡ some old)
unfolding move_assign destroy delete
move_assign-leaks h this ot a b old bytes e f differ live other =
    let (h', gone, free, others) = delete_lem h b bytes other in
    (h', rw f gone, others a (λ same. differ (sym same)) ∙ live)
