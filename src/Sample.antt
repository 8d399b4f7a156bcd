-- ===== src/Sample.antt =====
-- set/sample/sample.cpp: the program that prints the options of a socket and the addresses of two
-- hosts.
--
-- An array that ends with a null pointer is a list of `some` with a `none`; reading behind it is a
-- fault, `none`. What the name services and getsockopt(2) find are arguments.
mod Defs
mod Arrays
mod Tests
unfoldable pub use Defs.*
