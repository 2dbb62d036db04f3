-- ===== src/Masstree.antt =====
-- src/kv/masstree.h: `MasstreeKV`, the wrapper of the vendored Masstree.
pub mod Tree
pub mod Wrapper
pub mod WrapperMap
pub mod Scan
pub use Tree.*
unfoldable pub use Wrapper.*
