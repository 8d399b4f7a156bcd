-- ===== src/Sso.antt =====
-- set/str/bar_view.h: the class `SsoString`, which is to keep short strings inside the object.
mod Defs
mod Tests
pub mod Cases
unfoldable pub use Defs.*
