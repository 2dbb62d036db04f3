-- ===== src/Indexes.antt =====
-- src/kv/art_wrapper.h, pactree_wrapper.h and smart.h: the wrappers of the vendored ART, PACTree and SMART.
pub mod Value
pub mod Art
pub mod Pactree
pub mod Smart
