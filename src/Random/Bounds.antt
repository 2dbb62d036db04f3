-- ===== src/Random/Bounds.antt =====
-- The ranges of the pseudo-random numbers of benchmark/real_world/tpcc.h.
use Prim.Native.Nat.{bit_or, digits, max, bit_or-bitwise}
use sidle_baselines.Base.{
  ℕ, zero, suc, ◌+◌, ◌-◌, ◌*◌, ◌/◌, ◌%◌, ◌^◌, ◌≤◌, ◌<◌, ◌≡◌, refl, Bool, true, false, ◌==◌, inl,
  inr, Bool-cases, arith,
}
use sidle_baselines.Memory.{done, fault, assert_failed, division_by_zero}
use sidle_baselines.Random.FastRandom.{step_seed, step_seed-lt, next, next_u32, seed_mod, word_mod}
use sidle_baselines.Random.Draws.{
  random_number, non_uniform_random, get_customer_id, get_item_id, pick_warehouse_id, num_item,
  num_customer_per_district, int_mod,
}

next_u32_lem : (seed : ℕ) → next_u32 seed ≡ done (step_seed seed / 2 ^ 16 % 2 ^ 32, step_seed seed)
unfolding next_u32
next_u32_lem seed = refl

-- With ends `min <= max`, both non-negative ints, `RandomNumber` returns a number between them, ends
-- included, and leaves a seed below 2^48.
pub random_number_bounds :
    (lo hi seed : ℕ)
    → lo ≤ hi
    → hi < 2 ^ 31
    → (v : ℕ) × (s : ℕ) × (random_number lo hi seed ≡ done (v, s))
      × (lo ≤ v)
      × (v ≤ hi)
      × (s < seed_mod)
unfolding random_number
random_number_bounds lo hi seed h small =
    let range : ℕ = hi - lo + 1 in
    let v : ℕ = step_seed seed / 2 ^ 16 % 2 ^ 32 % range in
    let in_range : v < range = grind arith in
    let same : (hi + int_mod - lo + 1) % int_mod ≡ range = omega arith in
    let fits : (lo + v) % int_mod ≡ lo + v = omega arith in
    (
      lo + v,
      step_seed seed,
      rw (next_u32_lem seed, same) (ground arith),
      omega arith,
      omega arith,
      omega (arith, step_seed-lt seed),
    )

-- At the ends 1 and 4294967294, which is -2 as an int, the assertion of `RandomNumber` fails, from any
-- seed.
pub random_number_assert : (seed : ℕ) → random_number 1 (2 ^ 32 - 2) seed ≡ fault assert_failed
unfolding random_number
random_number_assert seed = rw (next_u32_lem seed) (ground arith)

-- Between k + 1 and k there is no number: the remainder that `RandomNumber` takes is by zero.
pub random_number-empty :
    (k seed : ℕ)
    → k < 2 ^ 31
    → random_number (k + 1) ((k + 1 + int_mod - 1) % int_mod) seed ≡ fault division_by_zero
unfolding random_number
random_number-empty k seed small =
    let empty : ((k + 1 + int_mod - 1) % int_mod + int_mod - (k + 1) + 1) % int_mod ≡ 0 =
      omega arith in
    rw (empty, next_u32_lem seed)

-- The digits of `bit_or` are the larger ones of its arguments, so that it is at most their sum.
abbrev or_digits : ℕ → ℕ → ℕ → ℕ
or_digits n a b = digits (λ b. b) max n a b

or_digits-le : (n a b : ℕ) → or_digits n a b ≤ a + b
or_digits-le zero a b = omega arith
or_digits-le (suc n) zero b = omega arith
or_digits-le (suc n) (suc a) b = omega (arith, or_digits-le n (suc a / 2) (b / 2))

bit_or-le : (a b : ℕ) → bit_or a b ≤ a + b
bit_or-le a b = omega (arith, bit_or-bitwise a b, or_digits-le a a b)

-- Where `min <= max` and the sum of the two constants and `max` is below 2^31, `NonUniformRandom` returns
-- a number between the ends, ends included, and leaves a seed below 2^48.
pub non_uniform_random_bounds :
    (a c lo hi seed : ℕ)
    → lo ≤ hi
    → a + hi + c < 2 ^ 31
    → (v : ℕ) × (s : ℕ) × (non_uniform_random a c lo hi seed ≡ done (v, s))
      × (lo ≤ v)
      × (v ≤ hi)
      × (s < seed_mod)
unfolding non_uniform_random
non_uniform_random_bounds a c lo hi seed h small =
    let (x, s, first, _, x_le, _) = random_number_bounds 0 a seed (omega arith) (omega arith) in
    let (y, t, second, _, y_le, t_lt) = random_number_bounds lo hi s h (omega arith) in
    let less : (bit_or x y + c) % (hi - lo + 1) < hi - lo + 1 = grind arith in
    ((bit_or x y + c) % (hi - lo + 1) + lo, t, rw (first, second), omega arith, omega arith, t_lt)

-- From any seed the customer that a transaction picks is one of the 3000 of a district.
pub get_customer_id_bounds :
    (seed : ℕ)
    → (v : ℕ) × (s : ℕ) × (get_customer_id seed ≡ done (v, s))
      × (1 ≤ v)
      × (v ≤ num_customer_per_district)
      × (s < seed_mod)
unfolding get_customer_id
get_customer_id_bounds seed =
    non_uniform_random_bounds 1023 259 1 num_customer_per_district seed (omega arith) (omega arith)

-- From any seed the item that a transaction picks, uniformly or not, is one of the 100000.
pub get_item_id_bounds :
    (uniform_item_dist : Bool) (seed : ℕ)
    → (v : ℕ) × (s : ℕ) × (get_item_id uniform_item_dist seed ≡ done (v, s))
      × (1 ≤ v)
      × (v ≤ num_item)
      × (s < seed_mod)
unfolding get_item_id
get_item_id_bounds true seed = random_number_bounds 1 num_item seed (omega arith) (omega arith)
get_item_id_bounds false seed =
    non_uniform_random_bounds 8191 7911 1 num_item seed (omega arith) (omega arith)

pub next_lem : (seed : ℕ) → (v : ℕ) × (s : ℕ) × (next seed ≡ done (v, s)) × (s < seed_mod)
unfolding next
next_lem seed = (
  (step_seed seed / 2 ^ 16 * 2 ^ 32 + step_seed (step_seed seed) / 2 ^ 16) % word_mod,
  step_seed (step_seed seed),
  refl,
  omega (arith, step_seed-lt (step_seed seed)),
)

-- With `start < end`, both 32-bit, the warehouse that `PickWarehouseId` picks lies in `[start, end)`.
pub pick_warehouse_id_bounds :
    (start end seed : ℕ)
    → start < end
    → end < int_mod
    → (v : ℕ) × (s : ℕ) × (pick_warehouse_id start end seed ≡ done (v, s)) × (start ≤ v) × (v < end)
unfolding pick_warehouse_id
pick_warehouse_id_bounds start end seed h small =
    let (x, s, drawn, _) = next_lem seed in
    let same : (end + int_mod - start) % int_mod ≡ end - start = omega arith in
    let in_range : x % (end - start) < end - start = grind arith in
    elim (Bool-cases (end - start == 1)) [
      | inl one ↦ (start, seed, rw (same, one), omega arith, omega arith)
      | inr more ↦ (
        x % (end - start) + start,
        s,
        rw (same, more, drawn) (ground arith),
        omega arith,
        omega arith,
      )
    ]
