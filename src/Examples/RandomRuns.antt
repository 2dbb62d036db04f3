-- ===== src/Examples/RandomRuns.antt =====
-- The pseudo-random numbers of benchmark/real_world/tpcc.h from small seeds.
use sidle_baselines.Base.{◌≡◌, refl}
use sidle_baselines.Memory.{done}
use sidle_baselines.Random.FastRandom.{set_seed0, step_seed, next_bits, next_u32}

-- java.util.Random with seed 42 gives -1170105035 as its first int
java_first : next_u32 (set_seed0 42) ≡ done (3124862261, 204790973191750)
unfolding next_u32 next_bits set_seed0 step_seed
java_first = refl
