-- ===== src/Random.antt =====
-- The pseudo-random numbers of the benchmarks: `FastRandom` of benchmark/synthetic/micro_base.h, which
-- is `fast_random` of benchmark/real_world/tpcc.h, and what tpcc.h draws with it.
pub mod FastRandom
pub mod Draws
pub mod Bounds
pub mod Names
