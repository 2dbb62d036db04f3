-- ===== src/Workload.antt =====
-- The calls that the benchmarks make of an index, and what the indexes promise of them.
pub mod Index
pub mod MasstreeIndex
pub mod WormholeIndex
pub mod Agreement
