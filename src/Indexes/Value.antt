-- ===== src/Indexes/Value.antt =====
-- benchmark/synthetic/micro_base.h: `Value`, of which the wrappers of PACTree and SMART use `val`.
use sidle_baselines.Base.{ℕ, List}

pub record Value : Type 0 where
  pub padding : List ℕ
  -- the 64 bits of an int64_t
  pub val : ℕ
