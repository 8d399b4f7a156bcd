-- ===== src/ProcessPool/Table.antt =====
-- What the parent's table holds after any number of processes.
use ex_netlink.Base.{ℕ, suc, ◌+◌, ◌≡◌, refl, none, List, [], ◌∷◌, false, ◌==◌, ==_refl, arith}
use ex_netlink.ProcessPool.Defs.{
  Billboard, Pool, new_pool, insert, Outcome, null, handle, exits, start, new_process,
}

-- Calls of `new_process` in the parent, one for each handle; the result is the pool and how many of
-- the calls returned a null pointer.
abbrev pub count_null : Outcome → Pool → Pool × ℕ
count_null (null p) q = (p, 1)
count_null (handle p h b) q = (p, 0)
count_null (exits b r) q = (q, 0)

abbrev pub new_all : ℕ → ℕ → Billboard → List ℕ → Pool → Pool × ℕ
new_all current pid b [] p = (p, 0)
new_all current pid b (h ∷ hs) p =
    let (q, n) = count_null (new_process current current current (suc pid) b none h p) p in
    let (r, m) = new_all current pid b hs q in (r, n + m)

suc_nonzero : (n : ℕ) → (suc n == 0) ≡ false
suc_nonzero n = ground arith

first_one :
    (current pid : ℕ) (b : Billboard) (g : ℕ)
    → new_process current current current (suc pid) b none g new_pool
      ≡ handle (record { process_seq = 0; process = (0, g) ∷ [] }) g (start current b)
unfolding new_process insert new_pool
first_one current pid b g = rw (==_refl current, suc_nonzero pid) refl

full :
    (current pid : ℕ) (b : Billboard) (h g : ℕ)
    → new_process current current current
        (suc pid)
        b
        none
        g
        (record { process_seq = 0; process = (0, h) ∷ [] })
      ≡ handle (record { process_seq = 0; process = (0, h) ∷ [] }) g (start current b)
unfolding new_process insert
full current pid b h g = rw (==_refl current, suc_nonzero pid) refl

rest_all :
    (current pid : ℕ) (b : Billboard) (h : ℕ) (hs : List ℕ)
    → new_all current pid b hs (record { process_seq = 0; process = (0, h) ∷ [] })
      ≡ (record { process_seq = 0; process = (0, h) ∷ [] }, 0)
rest_all current pid b h [] = refl
rest_all current pid b h (g ∷ gs) = rw (full current pid b h g, rest_all current pid b h gs) refl

-- However many processes the parent makes, one at least, no call is refused, though the pool means to
-- hold four, and the table has one entry, the first handle: `process_seq_` stays 0, and with it the
-- name.
new_all_lem :
    (current pid : ℕ) (b : Billboard) (h : ℕ) (hs : List ℕ)
    → new_all current pid b (h ∷ hs) new_pool
      ≡ (record { process_seq = 0; process = (0, h) ∷ [] }, 0)
new_all_lem current pid b h hs = rw (first_one current pid b h, rest_all current pid b h hs) refl
