-- ===== src/ProcessPool/Main.antt =====
-- What `main` of the process pool leaves.
use ex_netlink.Base.{
  ℕ, ◌≡◌, ◌≢◌, refl, inl, inr, some, List, [], ◌∷◌, ◌==◌, true, false, if◌then◌else◌, Bool-cases,
  arith,
}
use ex_netlink.ProcessPool.Defs.{Billboard, Pool, new_pool, insert, new_process}
use ex_netlink.ProcessPool.Handle.{main_process, pool_of, make_all, main}

-- The table with one entry, that of the first handle.
abbrev pub holding : ℕ → Pool
holding h = record { process_seq = 0; process = (0, h) ∷ [] }

module _ (current gettid child : ℕ) (child_ids : ℕ → ℕ) (boards : ℕ → Billboard) where
  refused :
      (h : ℕ) (p : Pool)
      → (current == gettid) ≡ false
      → pool_of (main_process current gettid child (child_ids h) (boards h) h p) ≡ some p
  unfolding pool_of main_process new_process
  refused h p e = rw e refl

  all_refused :
      (hs : List ℕ) (p : Pool)
      → (current == gettid) ≡ false
      → make_all current gettid child child_ids boards hs p ≡ some p
  unfolding make_all
  all_refused [] p e = refl
  all_refused (h ∷ hs) p e = rw (refused h p e, make_all) (all_refused hs p e)

  -- In the parent, where the table is empty or has an entry: the entry of number 0 stays the first.
  first_made :
      (h : ℕ)
      → (current == gettid) ≡ true
      → (child_ids h == 0) ≡ false
      → pool_of (main_process current gettid child (child_ids h) (boards h) h new_pool)
        ≡ some (holding h)
  unfolding pool_of main_process new_process new_pool insert
  first_made h e n = rw (e, n) refl

  next_made :
      (h g : ℕ)
      → (current == gettid) ≡ true
      → (child_ids h == 0) ≡ false
      → pool_of (main_process current gettid child (child_ids h) (boards h) h (holding g))
        ≡ some (holding g)
  unfolding pool_of main_process new_process insert
  next_made h g e n = rw (e, n) refl

  all_made :
      (hs : List ℕ) (g : ℕ)
      → (current == gettid) ≡ true
      → ((h : ℕ) → (child_ids h == 0) ≡ false)
      → make_all current gettid child child_ids boards hs (holding g) ≡ some (holding g)
  unfolding make_all
  all_made [] g e n = refl
  all_made (h ∷ hs) g e n = rw (next_made h g e (n h), make_all) (all_made hs g e n)

  -- Where fork(2) returns a child's id to the parent, `main` ends with an empty table if the current
  -- thread's number is not what gettid(2) returns, so that every call is refused; and else with one
  -- entry, the first handle's, although it has made four processes.
  main-holding :
      ((h : ℕ) → child_ids h ≢ 0)
      → main current gettid child child_ids boards
        ≡ some (if current == gettid then holding 1 else new_pool)
  unfolding main make_all
  main-holding forked = elim (Bool-cases (current == gettid)) [
    | inl e ↦ rw (e, first_made 1 e (away 1), make_all) (all_made (2 ∷ 3 ∷ 4 ∷ []) 1 e away)
    | inr e ↦ rw e (all_refused (1 ∷ 2 ∷ 3 ∷ 4 ∷ []) new_pool e)
  ]
    where
      nonzero : (a : ℕ) → a ≢ 0 → (a == 0) ≡ false
      nonzero a h = ground arith

      away : (h : ℕ) → (child_ids h == 0) ≡ false
      away h = nonzero (child_ids h) (forked h)
