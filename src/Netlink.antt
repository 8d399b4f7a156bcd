-- ===== src/Netlink.antt =====
-- main.cpp: the listener on a netlink socket for changes of links and addresses.
--
-- The macros NLMSG_OK and NLMSG_NEXT and the field `nlmsg_type` are those of <linux/netlink.h>, and
-- parameters: they take the position of the header in the buffer and the number of bytes from it on.
mod Listener
mod Tests
pub mod Walk
unfoldable pub use Listener.*
