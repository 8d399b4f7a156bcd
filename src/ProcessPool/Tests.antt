-- ===== src/ProcessPool/Tests.antt =====
-- Six processes, where the pool means to hold four, and the name of a process.
use ex_netlink.Base.{◌≡◌, refl, [], ◌∷◌}
use ex_netlink.ProcessPool.{process_name, assign_each}

-- The name is its last character alone.
last_character : process_name (112 ∷ 114 ∷ 48 ∷ []) ≡ 48 ∷ []
unfolding process_name assign_each
last_character = refl
