-- ===== src/Sample/Defs.antt =====
-- set/sample/sample.cpp: what each part of `main` prints.
use ex_netlink.Base.{ℕ, suc, Option, none, some, List, [], ◌∷◌, ◌++◌, Bool, ◌>>=◌}

pub data SockOpt : Type 0 where
  maxseg rcvbuf sndbuf rcvlowat sndlowat : SockOpt

pub data Line : Type 0 where
  option : SockOpt → ℕ → Line
  no_host gai_error ntop_error ruler : Line
  alias : ℕ → List ℕ → Line
  ip_addr : ℕ → ℕ → Line
  address_type : Bool → Line
  address : List ℕ → Line
  canonname : Option (List ℕ) → Line

-- The variable is 0 where getsockopt(2) does not set it.
unfoldable pub print_option : SockOpt → Option ℕ → Line
print_option o none = option o 0
print_option o (some value) = option o value

-- `for (int i = 0; array[i]; i++)`, of which each round prints a line with the number i + 1.
unfoldable pub print_each {ℓ} :
    {A : Type ℓ} → (ℕ → A → Line) → ℕ → List (Option A) → Option (List Line)
print_each line i [] = none
print_each line i (none ∷ rest) = some []
print_each line i (some a ∷ rest) =
    print_each line (suc i) rest >>= λ ls. some (line (suc i) a ∷ ls)

-- What gethostbyname(3) finds.
pub record Host : Type 0 where
  pub h_aliases : List (Option (List ℕ))
  pub inet : Bool
  pub h_addr_list : List (Option ℕ)

unfoldable pub print_host : Option Host → Option (List Line)
print_host none = some (no_host ∷ [])
print_host (some h) = do
  names ← print_each alias 0 h.h_aliases
  addrs ← print_each ip_addr 0 h.h_addr_list
  some (names ++ (address_type h.inet ∷ addrs))

-- An entry of the list of getaddrinfo(3), with what inet_ntop(3) makes of its address.
pub record AddrInfo : Type 0 where
  pub inet : Bool
  pub text : Option (List ℕ)
  pub ai_canonname : Option (List ℕ)

-- An entry without a text ends the loop.
unfoldable pub print_infos : List AddrInfo → List Line
print_infos [] = []
print_infos (r ∷ rs) = address_type r.inet ∷ elim r.text [
  | none ↦ ntop_error ∷ []
  | some buf ↦ address buf ∷ canonname r.ai_canonname ∷ print_infos rs
]

unfoldable pub print_result : Option (List AddrInfo) → List Line
print_result none = gai_error ∷ []
print_result (some rs) = print_infos rs

unfoldable pub main :
    (SockOpt → Option ℕ) → Option Host → Option (List AddrInfo) → Option (List Line)
main values host result = print_host host >>= λ ls. some (
    print_option maxseg (values maxseg)
    ∷ print_option rcvbuf (values rcvbuf)
    ∷ print_option sndbuf (values sndbuf)
    ∷ print_option rcvlowat (values rcvlowat)
    ∷ print_option sndlowat (values sndlowat)
    ∷ (ls ++ (ruler ∷ print_result result)))
