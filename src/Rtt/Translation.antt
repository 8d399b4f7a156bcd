-- ===== src/Rtt/Translation.antt =====
-- set/rtt/rtt_server.h, the two buffers of a connection; set/rtt/Connector.h, the socket of a
-- connection with the data that its user stores in it.
use ex_netlink.Base.{ℕ, ◌*◌, Option, none, some, List}
use ex_netlink.Buffer.{Buffer, circulation_buffer, retrieve_all}
use ex_netlink.Rtt.Package.{sizeof_rtt_package}
use ex_netlink.Rtt.Socket.{Socket, SocketModel, new_socket}

pub data TranslationState : Type 0 where
  unknow connectting connected stop : TranslationState

pub record Translation : Type 0 where
  pub state : TranslationState
  pub rbuffer : Buffer
  pub wbuffer : Buffer

-- `Translation transaction;`: the state is what the memory holds.
unfoldable pub new_translation : TranslationState → Translation
new_translation held = record {
  state = held;
  rbuffer = circulation_buffer (3 * sizeof_rtt_package);
  wbuffer = circulation_buffer (3 * sizeof_rtt_package);
}

unfoldable pub translation_init : Translation → Translation
translation_init t = record t { state = connected }

unfoldable pub translation_destory : Translation → Translation
translation_destory t = record t {
  rbuffer = retrieve_all t.rbuffer;
  wbuffer = retrieve_all t.wbuffer;
}

-- What `data_`, a `std::any`, holds: nothing, an object of type `Translation`, or a pointer to one.
pub data Stored : Type 0 where
  nothing : Stored
  object : Translation → Stored
  pointer : Translation → Stored

-- `addr_` is `none` where the constructor makes an empty address.
pub record Connector : Type 0 where
  pub socket : Socket
  pub addr : Option (List ℕ)
  pub stored : Stored

unfoldable pub new_connector : Option ℕ → Option (List ℕ) → SocketModel → Option ℕ → Connector
new_connector fd addr model owner = record {
  socket = new_socket fd model owner;
  addr = addr;
  stored = nothing;
}

-- The constructor without an address calls the other one.
unfoldable pub new_connector_no_addr : Option ℕ → SocketModel → Option ℕ → Connector
new_connector_no_addr fd model owner = new_connector fd none model owner

-- `setData<Translation>` and `setData<Translation *>`
unfoldable pub set_data : Connector → Stored → Connector
set_data c s = record c { stored = s }

-- `getData<Translation>()` asks for a pointer; `none` is the exception `std::bad_any_cast`.
unfoldable pub get_data : Connector → Option Translation
get_data c = elim c.stored [ nothing ↦ none | object t ↦ none | pointer t ↦ some t ]

-- `getId` and `getRawHandler`
unfoldable pub get_raw_handler : Connector → Option ℕ
get_raw_handler c = c.socket.id
