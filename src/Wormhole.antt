-- ===== src/Wormhole.antt =====
-- src/kv/wormhole.h: `WormholeKV`, the wrapper of the vendored Wormhole, and its workers' references.
pub mod Library
pub mod Wrapper
pub mod WrapperMap
pub mod Scan
pub mod Protocol
pub mod Balance
pub mod Workers
pub mod Destroy
