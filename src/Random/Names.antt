-- ===== src/Random/Names.antt =====
-- benchmark/real_world/tpcc.h: the last names of the customers, and strings of digits.
use sidle_baselines.Base.{
  ℕ, zero, suc, ◌+◌, ◌/◌, ◌%◌, ◌≤◌, ◌<◌, ◌≡◌, refl, ap, some, List, [], ◌∷◌, ◌++◌, length,
  length-append, get_elem?, arith,
}
use sidle_baselines.Memory.{done}
use sidle_baselines.Random.Draws.{
  name_tokens, customer_last_name_max_size, get_customer_last_name,
  get_non_uniform_customer_last_name, random_n_str,
}
use sidle_baselines.Random.Bounds.{non_uniform_random_bounds, next_lem}

abbrev AreTokens : List (List ℕ) → Type 0
AreTokens [] = Unit
AreTokens (t ∷ ts) = (3 ≤ length t) × (length t ≤ 5) × AreTokens ts

token_lem :
    (ts : List (List ℕ)) (i : ℕ)
    → AreTokens ts
    → i < length ts
    → (t : List ℕ) × (get_elem? ts i ≡ some t) × (3 ≤ length t) × (length t ≤ 5)
token_lem [] i h q = elim q [ ]
token_lem (t ∷ ts) zero h q = (t, refl, h.0, h.1)
token_lem (t ∷ ts) (suc i) h q = token_lem ts i h.2 (omega arith)

name_tokens-AreTokens : AreTokens name_tokens
name_tokens-AreTokens = omega arith

-- Each number below 1000 has a last name, of at least 9 letters and at most the 15 of its buffer.
pub get_customer_last_name_bounds :
    (num : ℕ)
    → num < 1000
    → (name : List ℕ) × (get_customer_last_name num ≡ some name)
      × (9 ≤ length name)
      × (length name ≤ customer_last_name_max_size)
unfolding get_customer_last_name
get_customer_last_name_bounds num h =
    let (a, ea, a_lo, a_hi) =
      token_lem name_tokens (num / 100) name_tokens-AreTokens (omega arith) in
    let (b, eb, b_lo, b_hi) =
      token_lem name_tokens (num / 10 % 10) name_tokens-AreTokens (omega arith) in
    let (c, ec, c_lo, c_hi) =
      token_lem name_tokens (num % 10) name_tokens-AreTokens (omega arith) in
    (
      (a ++ b) ++ c,
      rw (ea, eb, ec),
      omega (arith, length-append a b, length-append (a ++ b) c),
      omega (arith, length-append a b, length-append (a ++ b) c),
    )

-- From any seed, and for each constant below 2000000000, a drawn last name is there and has at most the
-- 15 letters of its buffer.
pub get_non_uniform_customer_last_name_bounds :
    (c seed : ℕ)
    → c < 2000000000
    → (name : List ℕ) × (s : ℕ) × (get_non_uniform_customer_last_name c seed ≡ done (some name, s))
      × (length name ≤ customer_last_name_max_size)
unfolding get_non_uniform_customer_last_name
get_non_uniform_customer_last_name_bounds c seed h =
    let (num, s, drawn, lo, hi, _) =
      non_uniform_random_bounds 255 c 0 999 seed (omega arith) (omega arith) in
    let (name, named, _, fits) = get_customer_last_name_bounds num (omega arith) in
    (name, s, rw (drawn, named), fits)

abbrev pub AreDigits : List ℕ → Type 0
AreDigits [] = Unit
AreDigits (c ∷ cs) = (b'0' ≤ c) × (c ≤ b'9') × AreDigits cs

-- `RandomNStr(r, len)` is a string of len digits.
pub random_n_str-AreDigits :
    (len seed : ℕ)
    → (cs : List ℕ) × (s : ℕ) × (random_n_str len seed ≡ done (cs, s))
      × (length cs ≡ len)
      × AreDigits cs
unfolding random_n_str
random_n_str-AreDigits zero seed = ([], seed, refl, refl, tt)
random_n_str-AreDigits (suc len) seed =
    let (v, s, drawn, _) = next_lem seed in
    let (cs, t, rest, long, digits) = random_n_str-AreDigits len s in
    ((b'0' + v % 10) ∷ cs, t, rw (drawn, rest), ap suc long, (omega arith, omega arith, digits))
