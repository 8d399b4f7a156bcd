-- ===== src/Rtt/Socket.antt =====
-- set/rtt/Fd.h, Socket.h and Connector.h: a socket object with the three switches of its base class
-- `Fd`.
--
-- An `int` that is -1 is `none`. `self` is the weak pointer of `std::enable_shared_from_this`: set in
-- an object that a `shared_ptr` owns, and empty in a copy of one.
use ex_netlink.Base.{ℕ, Option, none, Bool, false, ◌||◌}

-- `socket_model`
pub data SocketModel : Type 0 where
  listen_shared listen_excluse normal : SocketModel

pub record Socket : Type 0 where
  pub id : Option ℕ
  pub read : Bool
  pub write : Bool
  pub error : Bool
  pub model : SocketModel
  pub self : Option ℕ

-- The constructors `Socket(id, reactor, model)` and `Fd(id)`; `owner` is the address of the object if
-- `std::make_shared` makes it.
unfoldable pub new_socket : Option ℕ → SocketModel → Option ℕ → Socket
new_socket id model owner = record {
  id = id;
  read = false;
  write = false;
  error = false;
  model = model;
  self = owner;
}

unfoldable pub responsable : Socket → Bool
responsable s = s.read || s.write || s.error

-- The six setters of `Fd`, without the `update()` that each of them ends with.
pub data Switch : Type 0 where
  read_switch write_switch error_switch : Switch

unfoldable pub set_switch : Switch → Bool → Socket → Socket
set_switch read_switch v s = record s { read = v }
set_switch write_switch v s = record s { write = v }
set_switch error_switch v s = record s { error = v }

-- `auto socket = dynamic_cast<const net::Socket&>(unique)` copies the object.
unfoldable pub copy : Socket → Socket
copy s = record s { self = none }

-- `none` is the exception `std::bad_weak_ptr`.
unfoldable pub shared_from_this : Socket → Option ℕ
shared_from_this s = s.self
