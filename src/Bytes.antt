-- ===== src/Bytes.antt =====
-- Words and structs in memory: their bytes in each byte order, and `memcmp`.
mod Defs
mod Laws
pub mod Equality
unfoldable pub use Defs.*
pub use Laws.*
