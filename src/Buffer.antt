-- ===== src/Buffer.antt =====
-- set/buffer/buffer.h: the class `circulation_buffer`, a growing ring of bytes.
--
-- The state is the class's four members. Addresses inside `buf_` are indices; a read or a write
-- outside the array, a failed `assert` and a shift by the full width are a fault, `none`. All index
-- arithmetic is that of `size_t`, modulo 2^64. `std::copy_n` between overlapping ranges of bytes is
-- read as the `memmove` that libstdc++ makes of it. The bytes of `new uint8_t[n]` with no
-- initialiser are a parameter, `fresh`.
mod Defs
mod Tests
pub mod Inv
pub mod Append
pub mod Skip
pub mod Straight
pub mod Peek
pub mod Relocate
pub mod Grow
pub mod Handle
pub mod Moves
pub mod Queue
unfoldable pub use Defs.*
