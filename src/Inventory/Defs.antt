-- ===== src/Inventory/Defs.antt =====
-- set/inventory/main.cpp: the classes `Request` and `Inventory`.
use ex_netlink.Base.{ℕ, zero, suc, not, List, [], ◌∷◌, ◌++◌, Bool, true, false, ◌==◌, if◌then◌else◌}

-- `obs_`, how many owners each object has, and a log of the objects printed.
pub record Inventory : Type 0 where
  pub obs : List ℕ
  pub owners : ℕ → ℕ
  pub log : List ℕ

-- Whether `lock` of a weak pointer succeeds.
unfoldable pub owned : Inventory → ℕ → Bool
owned i a = not (i.owners a == 0)

unfoldable pub register1 : Inventory → ℕ → Inventory
register1 i request = record i { obs = i.obs ++ (request ∷ []) }

-- The predicate that `remove` erases by.
unfoldable pub matches : Inventory → ℕ → ℕ → Bool
matches i request e = if owned i e then request == e else false

unfoldable pub erase_if : (ℕ → Bool) → List ℕ → List ℕ
erase_if p [] = []
erase_if p (e ∷ es) = if p e then erase_if p es else e ∷ erase_if p es

unfoldable pub remove : Inventory → ℕ → Inventory
remove i request = record i { obs = erase_if (matches i request) i.obs }

unfoldable pub print_each : Inventory → List ℕ → List ℕ
print_each i [] = []
print_each i (e ∷ es) = if owned i e then e ∷ print_each i es else print_each i es

unfoldable pub print_all : Inventory → Inventory
print_all i = record i { log = i.log ++ print_each i i.obs }

-- An owner of the object goes away; the destructor runs, with the count at 0, when it was the last.
unfoldable pub set_owners : (ℕ → ℕ) → ℕ → ℕ → ℕ → ℕ
set_owners owners a n b = if a == b then n else owners b

unfoldable pub release : Inventory → ℕ → ℕ → Inventory
release i a zero = i
release i a (suc zero) =
    let j : Inventory = record i { owners = set_owners i.owners a 0 } in remove j a
release i a (suc (suc n)) = record i { owners = set_owners i.owners a (suc n) }

-- `Request::register1`, in an object that has an owner, and the destructor.
unfoldable pub register_request : ℕ → Inventory → Inventory
register_request a i = register1 i a

unfoldable pub destroy_request : ℕ → Inventory → Inventory
destroy_request a i = remove i a

-- What `main` does with the object at `a`, from the start with one owner to the join of its thread:
-- the thread prints before or behind the explicit call of the destructor.
unfoldable pub both_orders : Bool → ℕ → Inventory → Inventory
both_orders true a i = destroy_request a (print_all i)
both_orders false a i = print_all (destroy_request a i)

unfoldable pub main : Bool → ℕ → Inventory
main prints_first a =
    both_orders prints_first a
      (register_request a (record { obs = []; owners = λ b. if b == a then 1 else 0; log = [] }))
