-- ===== src/Inventory.antt =====
-- set/inventory/main.cpp: an `Inventory` of weak pointers to objects that register and deregister
-- themselves.
--
-- A `weak_ptr` is the address of its object; `lock` succeeds if the object still has an owner, which
-- `owned` says. Each operation holds the inventory's mutex from start to end, so it is one step.
mod Defs
mod Main
mod Tests
pub mod Removal
unfoldable pub use Defs.*
