-- ===== src/Echo/Devices.antt =====
-- set/echo_fd/echo.client.cpp: the list of network devices, for each of which a thread of clients is
-- started, and the address that it binds to.
use ex_netlink.Base.{
  ℕ, suc, ◌-◌, ◌^◌, ◌≢◌, Option, none, some, List, [], ◌∷◌, ◌++◌, Bool, true, false, ◌&&◌, ◌==◌,
  if◌then◌else◌, All,
}
use ex_netlink.Echo.Client.{c_string, EchoAddr}

-- -1 as a word of 32 bits.
abbrev pub minus_one : ℕ
minus_one = 2 ^ 32 - 1

-- An entry that SIOCGIFCONF gives, and what SIOCGIFADDR puts in place of its address.
pub record Interface : Type 0 where
  pub name : List ℕ
  pub listed : ℕ
  pub looked_up : Option ℕ

abbrev pub address : Option ℕ → ℕ → ℕ
address none listed = listed
address (some a) listed = a

abbrev pub same_bytes : List ℕ → List ℕ → Bool
same_bytes [] [] = true
same_bytes [] (b ∷ bs) = false
same_bytes (a ∷ as_) [] = false
same_bytes (a ∷ as_) (b ∷ bs) = a == b && same_bytes as_ bs

-- `strcmp(…) == 0`
abbrev pub same_string : List ℕ → List ℕ → Bool
same_string s t = same_bytes (c_string s) (c_string t)

-- The loop over the entries.
unfoldable pub find_ip : List Interface → List ℕ → ℕ
find_ip [] dev = 0
find_ip (r ∷ reqs) dev =
    let rest = find_ip reqs dev in
    if same_string r.name dev then address r.looked_up r.listed else rest

-- By the results of socket(2) and of SIOCGIFCONF.
unfoldable pub get_local_ip : Option ℕ → Option (List Interface) → List ℕ → ℕ
get_local_ip none reqs dev = minus_one
get_local_ip (some fd) none dev = minus_one
get_local_ip (some fd) (some reqs) dev = find_ip reqs dev

-- The name read so far, the byte in `buf`, and the addresses of the threads started.
pub record Devices : Type 0 where
  pub dev_name : List ℕ
  pub buf : ℕ
  pub clients : List ℕ

unfoldable pub start_client : Devices → ℕ → Devices
start_client d ip =
    if ip == 0
    then record d { dev_name = [] }
    else record d { dev_name = []; clients = d.clients ++ (ip ∷ []) }

unfoldable pub take_byte : (List ℕ → ℕ) → Devices → Devices
take_byte ip d =
    if d.buf == 10
    then start_client d (ip d.dev_name)
    else record d { dev_name = d.dev_name ++ (d.buf ∷ []) }

-- What read(2) gives for a byte; after an error, which is not 0, the byte before is taken again.
unfoldable pub read_byte : (List ℕ → ℕ) → Devices → Option ℕ → Devices
read_byte ip d none = take_byte ip d
read_byte ip d (some b) = take_byte ip (record d { buf = b })

-- The loop up to the end of the file.
unfoldable pub read_devices : (List ℕ → ℕ) → Devices → List (Option ℕ) → Devices
read_devices ip d [] = d
read_devices ip d (r ∷ rs) = read_devices ip (read_byte ip d r) rs

-- The file that lists the names, each behind the other with a newline.
abbrev pub doc : List (List ℕ) → List ℕ
doc [] = []
doc (name ∷ names) = name ++ (10 ∷ doc names)

-- The addresses that are not 0.
abbrev pub nonzero : List ℕ → List ℕ
nonzero [] = []
nonzero (a ∷ rest) = let kept = nonzero rest in if a == 0 then kept else a ∷ kept

abbrev pub IsLine : List ℕ → Type 0
IsLine = All (λ b. b ≢ 10)

-- `echo_client`: `none` for an exit with -1, else whether it returns 0 and not -1. Its loop is
-- commented out, and it never closes its socket.
unfoldable pub echo_client : Option ℕ → Bool → Option EchoAddr → Bool → Option Bool
echo_client none bound addr connected = none
echo_client (some sock_fd) false addr connected = none
echo_client (some sock_fd) true none connected = none
echo_client (some sock_fd) true (some addr) connected = some connected

-- The loop of a thread, over what its calls of `echo_client` come to: the sockets that they leave
-- open, or `none` where one ends the process.
unfoldable pub client_thread : ℕ → List (Option Bool) → Option ℕ
client_thread sockets [] = some sockets
client_thread sockets (none ∷ calls) = none
client_thread sockets (some result ∷ calls) = client_thread (suc sockets) calls
