-- ===== src/Random/Draws.antt =====
-- benchmark/real_world/tpcc.h: what the loader and the transactions draw. An `int` is its 32-bit pattern.
use Prim.Native.Nat.{bit_or}
use sidle_baselines.Base.{
  ℕ, zero, suc, ◌+◌, ◌-◌, ◌*◌, ◌/◌, ◌%◌, ◌^◌, Bool, true, false, ◌&&◌, List, [], ◌∷◌, ◌++◌, leb,
  ltb, ◌==◌, if◌then◌else◌, Option, none, some, get_elem?,
}
use sidle_baselines.Memory.{fault, assert_failed, division_by_zero}
use sidle_baselines.Random.FastRandom.{Draw, ◌>>=◌, ◌>>◌, pure, next, next_u32}

abbrev pub int_mod : ℕ
int_mod = 2 ^ 32

-- `a <= b` on the numbers that two `int` patterns stand for
abbrev pub int_le : ℕ → ℕ → Bool
int_le a b = leb ((a + 2 ^ 31) % int_mod) ((b + 2 ^ 31) % int_mod)

abbrev pub require : Bool → Draw (Unit {0})
require true seed = pure tt seed
require false seed = fault assert_failed

-- `a % b`; by zero it is a fault
abbrev pub remainder : ℕ → ℕ → Draw ℕ
remainder a zero seed = fault division_by_zero
remainder a (suc b) seed = pure (a % suc b) seed

-- `RandomNumber(r, min, max)`
unfoldable pub random_number : ℕ → ℕ → Draw ℕ
random_number lo hi = do
  let range = (hi + int_mod - lo + 1) % int_mod
  v ← next_u32
  rand_val ← remainder v range
  let res = (lo + rand_val) % int_mod
  require (int_le lo res && int_le res hi)
  pure res

-- `NonUniformRandom(r, A, C, min, max)`, the first number drawn first
unfoldable pub non_uniform_random : ℕ → ℕ → ℕ → ℕ → Draw ℕ
unfolding random_number
non_uniform_random a c lo hi = do
  x ← random_number 0 a
  y ← random_number lo hi
  pure ((bit_or x y + c) % (hi - lo + 1) + lo)

abbrev pub num_item : ℕ
num_item = 100000

abbrev pub num_customer_per_district : ℕ
num_customer_per_district = 3000

unfoldable pub get_customer_id : Draw ℕ
unfolding non_uniform_random
get_customer_id = non_uniform_random 1023 259 1 num_customer_per_district

-- `GetItemId(r)`, at `g_uniform_item_dist`
unfoldable pub get_item_id : Bool → Draw ℕ
unfolding non_uniform_random
get_item_id uniform_item_dist =
    if uniform_item_dist then random_number 1 num_item else non_uniform_random 8191 7911 1 num_item

-- `PickWarehouseId(r, start, end)`
unfoldable pub pick_warehouse_id : ℕ → ℕ → Draw ℕ
pick_warehouse_id start end =
    let diff = (end + int_mod - start) % int_mod in
    if diff == 1
    then pure start
    else do v ← next; require (ltb 0 diff); pure ((v % diff + start) % int_mod)

-- `RandomNStr(r, len)`
unfoldable pub random_n_str : ℕ → Draw (List ℕ)
random_n_str zero = pure []
random_n_str (suc len) = do v ← next; rest ← random_n_str len; pure ((b'0' + v % 10) ∷ rest)

-- `NameTokens`
abbrev pub name_tokens : List (List ℕ)
name_tokens =
    (b'B' ∷ b'A' ∷ b'R' ∷ [])
    ∷ (b'O' ∷ b'U' ∷ b'G' ∷ b'H' ∷ b'T' ∷ [])
    ∷ (b'A' ∷ b'B' ∷ b'L' ∷ b'E' ∷ [])
    ∷ (b'P' ∷ b'R' ∷ b'I' ∷ [])
    ∷ (b'P' ∷ b'R' ∷ b'E' ∷ b'S' ∷ [])
    ∷ (b'E' ∷ b'S' ∷ b'E' ∷ [])
    ∷ (b'A' ∷ b'N' ∷ b'T' ∷ b'I' ∷ [])
    ∷ (b'C' ∷ b'A' ∷ b'L' ∷ b'L' ∷ b'Y' ∷ [])
    ∷ (b'A' ∷ b'T' ∷ b'I' ∷ b'O' ∷ b'N' ∷ [])
    ∷ (b'E' ∷ b'I' ∷ b'N' ∷ b'G' ∷ [])
    ∷ []

-- `CustomerLastNameMaxSize`
abbrev pub customer_last_name_max_size : ℕ
customer_last_name_max_size = 5 * 3

abbrev pub append_token : Option (List ℕ) → Option (List ℕ) → Option (List ℕ)
append_token (some xs) (some ys) = some (xs ++ ys)
append_token (some xs) none = none
append_token none ys = none

-- `GetCustomerLastName(buf, r, num)`: what is written to `buf`. `none` is a token past the array.
unfoldable pub get_customer_last_name : ℕ → Option (List ℕ)
get_customer_last_name num =
    append_token
      (append_token (get_elem? name_tokens (num / 100)) (get_elem? name_tokens (num / 10 % 10)))
      (get_elem? name_tokens (num % 10))

-- `GetNonUniformCustomerLastNameLoad(r)`, and `...Run(buf, r)`, which differ in one constant
unfoldable pub get_non_uniform_customer_last_name : ℕ → Draw (Option (List ℕ))
unfolding non_uniform_random
get_non_uniform_customer_last_name c = do
  num ← non_uniform_random 255 c 0 999
  pure (get_customer_last_name num)
