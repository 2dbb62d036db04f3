-- ===== src/Random/FastRandom.antt =====
-- benchmark/synthetic/micro_base.h `FastRandom` and benchmark/real_world/tpcc.h `fast_random`: the linear
-- congruential generator of java.util.Random. Its state is the seed, an unsigned long.
use Prim.Native.Nat.{bit_xor}
use sidle_baselines.Base.{
  ℕ, zero, suc, ◌+◌, ◌-◌, ◌*◌, ◌/◌, ◌%◌, ◌^◌, ◌<◌, ◌≡◌, refl, List, [], ◌∷◌, arith,
}
use sidle_baselines.Memory.{Run, done}
use sidle_baselines.Memory

-- A draw returns its value and the next seed, or does not return.
abbrev pub Draw : Type 0 → Type 0
Draw A = ℕ → Run (A × ℕ)

infixl 5 ◌>>=◌ ◌>>◌
abbrev pub ◌>>=◌ : {A B : Type 0} → Draw A → (A → Draw B) → Draw B
◌>>=◌ m f seed = Memory.◌>>=◌ (m seed) (λ r. f r.0 r.1)

abbrev pub ◌>>◌ : {A : Type 0} → Draw (Unit {0}) → Draw A → Draw A
m >> k = m >>= λ _. k

abbrev pub pure : {A : Type 0} → A → Draw A
pure a seed = done (a, seed)

abbrev pub word_mod : ℕ
word_mod = 2 ^ 64

-- `(1L << 48) - 1` as a mask is a remainder
abbrev pub seed_mod : ℕ
seed_mod = 2 ^ 48

-- `set_seed0`, which the constructor calls
unfoldable pub set_seed0 : ℕ → ℕ
set_seed0 seed = bit_xor seed 0x5DEECE66D % seed_mod

-- `next(bits)`: the seed moves on, and its upper bits are the value
unfoldable pub step_seed : ℕ → ℕ
step_seed seed = (seed * 0x5DEECE66D + 0xB) % word_mod % seed_mod

unfoldable pub next_bits : ℕ → Draw ℕ
unfolding step_seed
next_bits bits seed = done (step_seed seed / 2 ^ (48 - bits), step_seed seed)

-- `next()`, which calls `next(32)` for the upper half first
unfoldable pub next : Draw ℕ
unfolding next_bits
next = do hi ← next_bits 32; lo ← next_bits 32; pure ((hi * 2 ^ 32 + lo) % word_mod)

unfoldable pub next_u32 : Draw ℕ
unfolding next_bits
next_u32 = do v ← next_bits 32; pure (v % 2 ^ 32)

unfoldable pub next_u16 : Draw ℕ
unfolding next_bits
next_u16 = do v ← next_bits 16; pure (v % 2 ^ 16)

-- `next_uniform()`, in units of 2^-53
unfoldable pub next_uniform : Draw ℕ
unfolding next_bits
next_uniform = do hi ← next_bits 26; lo ← next_bits 27; pure ((hi * 2 ^ 27 + lo) % word_mod)

-- `next_char()`, as the byte that the char is
unfoldable pub next_char : Draw ℕ
unfolding next_bits
next_char = do v ← next_bits 8; pure (v % 256)

-- `next_string(len)`
unfoldable pub next_string : ℕ → Draw (List ℕ)
unfolding next_char
next_string zero = pure []
next_string (suc len) = do c ← next_char; rest ← next_string len; pure (c ∷ rest)

-- A seed moves on to one below 2^48, as over the integers: the product wraps, but the bits that are kept
-- do not notice.
pub step_seed-lt :
    (seed : ℕ)
    → (step_seed seed < seed_mod) × (step_seed seed ≡ (seed * 0x5DEECE66D + 0xB) % seed_mod)
unfolding step_seed
step_seed-lt seed = (omega arith, omega arith)

-- From any seed `next_uniform()` divides a number below 2^53 by 2^53, and leaves a seed below 2^48.
pub next_uniform-lt :
    (seed : ℕ)
    → (v : ℕ) × (s : ℕ) × (next_uniform seed ≡ done (v, s)) × (v < 2 ^ 53) × (s < seed_mod)
unfolding next_uniform
next_uniform-lt seed = (
  (step_seed seed / 2 ^ 22 * 2 ^ 27 + step_seed (step_seed seed) / 2 ^ 21) % word_mod,
  step_seed (step_seed seed),
  refl,
  omega (arith, step_seed-lt seed, step_seed-lt (step_seed seed)),
  omega (arith, step_seed-lt (step_seed seed)),
)
