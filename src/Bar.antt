-- ===== src/Bar.antt =====
-- set/str/bar.h: the string class `Bar`, on a store of blocks.
--
-- A pointer is the address of a block, `none` if it is null. An address is never used again, and a
-- freed block is `none` in the store. Use of a freed block, an access outside a block, and freeing
-- twice are a fault, `none`. The bytes that malloc(3) returns are a parameter, `fresh`.
mod Defs
mod Make
pub mod Copy
mod Tests
pub mod Blocks
pub mod Append
unfoldable pub use Defs.*
unfoldable pub use Make.*
