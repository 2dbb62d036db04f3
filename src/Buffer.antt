-- ===== src/Buffer.antt =====
-- src/kv/buffer.h: `BufferKV`, a sorted array of records under a readers-writer lock, at the key type
-- `Key` of benchmark/synthetic/micro_base.h, which is compared as its uint64_t.
pub mod Defs
pub mod Operations
pub mod Search
pub mod Meaning
pub mod Rows
pub mod Dropped
pub mod Refinement
pub mod Failures
pub mod Scans
