-- ===== src/Helper/Clock.antt =====
-- src/helper.h and src/helper.cpp: the cycle counters, and `timeit`. What the instructions leave in the
-- registers, and what `steady_clock::now()` returns, are parameters.
use Prim.Native.Nat.{bit_or, digits, max, bit_or-bitwise}
use native.Mathlib.Nat.{pow-succ', mul_assoc}
use sidle_baselines.Base.{
  ℕ, zero, suc, ◌+◌, ◌-◌, ◌*◌, ◌/◌, ◌%◌, ◌^◌, ◌≤◌, ◌<◌, length, if◌then◌else◌, ◌≡◌, refl, ◌∙◌, Bool,
  true, false, Option, none, some, List, [], ◌∷◌, arith,
}

-- `util_rdtsc`, `util_rdtsc_start` and `util_rdtsc_end`, from the two 32-bit halves
unfoldable pub util_rdtsc : ℕ → ℕ → ℕ
util_rdtsc hi lo = bit_or lo (hi * 2 ^ 32 % 2 ^ 64)

unfoldable pub util_rdtsc_start : ℕ → ℕ → ℕ
util_rdtsc_start hi lo = bit_or lo (hi * 2 ^ 32 % 2 ^ 64)

unfoldable pub util_rdtsc_end : ℕ → ℕ → ℕ
util_rdtsc_end hi lo = bit_or lo (hi * 2 ^ 32 % 2 ^ 64)

-- `rdtscp(aux)`, from two 64-bit registers
unfoldable pub rdtscp : ℕ → ℕ → ℕ
rdtscp rdx rax = (rdx * 2 ^ 32 % 2 ^ 64 + rax) % 2 ^ 64

abbrev or_digits : ℕ → ℕ → ℕ → ℕ
or_digits n a b = digits (λ b. b) max n a b

-- Where the digits of two numbers do not meet, `bit_or` is their sum.
or_digits-apart : (n k a c : ℕ) → a ≤ n → a < 2 ^ k → or_digits n a (2 ^ k * c) ≡ a + 2 ^ k * c
or_digits-apart zero k zero c fuel small = omega arith
or_digits-apart zero k (suc a) c fuel small = absurd (omega arith)
or_digits-apart (suc n) k zero c fuel small = omega arith
or_digits-apart (suc n) zero (suc a) c fuel small = absurd (omega arith)
or_digits-apart (suc n) (suc k) (suc a) c fuel small =
    let doubled : 2 ^ suc k * c ≡ 2 * (2 ^ k * c) = rw (pow-succ' 2 k) (mul_assoc 2 (2 ^ k) c) in
    let half : 2 * (2 ^ k * c) / 2 ≡ 2 ^ k * c = omega arith in
    let below : suc a / 2 < 2 ^ k = omega (arith, small, pow-succ' 2 k) in
    let rest = or_digits-apart n k (suc a / 2) c (omega arith) below in
    rw (doubled, half) (omega (arith, rest))

-- Of a low and a high half, each of 32 bits, the four ways to read the cycle counter make the same word,
-- which has the halves as its quotient and its remainder by 2^32 and is below 2^64.
pub util_rdtsc-rdtscp :
    (hi lo : ℕ)
    → hi < 2 ^ 32
    → lo < 2 ^ 32
    → (util_rdtsc hi lo ≡ rdtscp hi lo)
      × (util_rdtsc_start hi lo ≡ rdtscp hi lo)
      × (util_rdtsc_end hi lo ≡ rdtscp hi lo)
      × (rdtscp hi lo / 2 ^ 32 ≡ hi)
      × (rdtscp hi lo % 2 ^ 32 ≡ lo)
      × (rdtscp hi lo < 2 ^ 64)
unfolding util_rdtsc util_rdtsc_start util_rdtsc_end rdtscp
util_rdtsc-rdtscp hi lo high low =
    let shift : hi * 2 ^ 32 % 2 ^ 64 ≡ 2 ^ 32 * hi = omega arith in
    let sum : bit_or lo (hi * 2 ^ 32 % 2 ^ 64) ≡ lo + 2 ^ 32 * hi =
      rw shift (bit_or-bitwise lo (2 ^ 32 * hi) ∙ or_digits-apart lo 32 lo hi (omega arith) low) in
    let same : bit_or lo (hi * 2 ^ 32 % 2 ^ 64) ≡ (hi * 2 ^ 32 % 2 ^ 64 + lo) % 2 ^ 64 =
      omega (arith, sum) in
    (same, same, same, omega arith, omega arith, omega arith)

-- the static variables of `timeit`, and how many readings the clock has given
pub record Timeit : Type 0 where
  pub inited : Bool
  pub last_time_point : ℕ
  pub readings : ℕ

-- before the first call
abbrev pub never : Timeit
never = record { inited = false; last_time_point = 0; readings = 0 }

-- A call, on a clock with its readings in order: the span that it prints, if any, in the clock's ticks.
unfoldable pub timeit : (ℕ → ℕ) → Timeit → Option ℕ × Timeit
timeit clock st =
    if st.inited
    then (
      some (clock st.readings - st.last_time_point),
      record st { last_time_point = clock (st.readings + 1); readings = st.readings + 2 },
    )
    else (
      none,
      record { inited = true; last_time_point = clock st.readings; readings = st.readings + 1 },
    )

-- n calls, and the spans that they print
unfoldable pub timeit_calls : (ℕ → ℕ) → ℕ → Timeit → List ℕ × Timeit
timeit_calls clock zero st = ([], st)
timeit_calls clock (suc n) st =
    let first = timeit clock st in
    let rest = timeit_calls clock n first.1 in
    elim first.0 [ none ↦ rest | some span ↦ (span ∷ rest.0, rest.1) ]

abbrev pub sum : List ℕ → ℕ
sum [] = 0
sum (x ∷ xs) = x + sum xs

-- after the first call
abbrev running : ℕ → ℕ → Timeit
running last r = record { inited = true; last_time_point = last; readings = r }

module _ (clock : ℕ → ℕ) (steady : (i : ℕ) → clock i ≤ clock (i + 1)) where
  later_calls :
      (n last r : ℕ)
      → last ≤ clock r
      → let calls = timeit_calls clock n (running last r) in
        (length calls.0 ≡ n)
        × (sum calls.0 + last ≤ calls.1.last_time_point)
        × (calls.1.readings ≡ r + 2 * n)
  unfolding timeit timeit_calls
  later_calls zero last r past = (refl, omega arith, omega arith)
  later_calls (suc n) last r past =
      let next : r + 1 + 1 ≡ r + 2 = omega arith in
      let still : clock (r + 1) ≤ clock (r + 2) = rw (← next) (steady (r + 1)) in
      let (long, spent, read) = later_calls n (clock (r + 1)) (r + 2) still in
      (omega (arith, long), omega (arith, spent, steady r), omega (arith, read))

  -- On a clock that never goes back, the first call of `timeit` prints nothing, and each later one a span.
  -- All the spans together are no longer than from the first reading of the clock to the last: the time
  -- between the two readings of a call is in none of them, and no time is in two. Each later call reads the
  -- clock twice.
  pub timeit-spans :
      (n : ℕ)
      → let calls = timeit_calls clock (suc n) never in
        (length calls.0 ≡ n)
        × (sum calls.0 + clock 0 ≤ calls.1.last_time_point)
        × (calls.1.readings ≡ 1 + 2 * n)
  unfolding timeit timeit_calls
  timeit-spans n = later_calls n (clock 0) 1 (steady 0)
