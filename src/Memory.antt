-- ===== src/Memory.antt =====
-- The memory that the C++ code works on: arrays from `new T[n]`, read, written and moved with the
-- bounds written out, size_t arithmetic, and the ways in which a call does not come to its end.
mod Monad
pub use Monad.*
use sidle_baselines.Base.{
  ℕ, ◌+◌, ◌-◌, ◌%◌, ◌^◌, ◌≤◌, ◌<◌, ◌≡◌, refl, arith, Bool, ◌&&◌, ltb, leb, ◌==◌, if◌then◌else◌,
}

-- size_t, a 64-bit word
abbrev pub size_mod : ℕ
size_mod = 2 ^ 64

abbrev pub add_size : ℕ → ℕ → ℕ
add_size a b = (a + b) % size_mod

abbrev pub sub_size : ℕ → ℕ → ℕ
sub_size a b = (a + size_mod - b) % size_mod

-- `size` cells. What `cell` holds at `size` and above stands for no memory.
pub record Array {ℓ} (A : Type ℓ) : Type ℓ where
  pub size : ℕ
  pub cell : ℕ → A

module _ {ℓ} {A : Type ℓ} where
  -- `new T[n]`, with `blank` for what a fresh cell holds
  abbrev pub fresh : A → ℕ → Array A
  fresh blank n = record { size = n; cell = λ _. blank }

  unfoldable pub read : Array A → ℕ → Run A
  read a i = if ltb i a.size then done (a.cell i) else fault out_of_bounds

  abbrev pub written : Array A → ℕ → A → Array A
  written a i v = record a { cell = λ j. if j == i then v else a.cell j }

  unfoldable pub write : Array A → ℕ → A → Run (Array A)
  write a i v = if ltb i a.size then done (written a i v) else fault out_of_bounds

  abbrev pub moved : Array A → ℕ → Array A → ℕ → ℕ → Array A
  moved dst d src s n = record dst {
    cell = λ j. if leb d j && ltb j (d + n) then src.cell (s + (j - d)) else dst.cell j;
  }

  -- `memmove(dst + d, src + s, n * sizeof(T))`, and `memcpy` where the two do not overlap
  unfoldable pub move : Array A → ℕ → Array A → ℕ → ℕ → Run (Array A)
  move dst d src s n =
      if leb (s + n) src.size && leb (d + n) dst.size
      then done (moved dst d src s n)
      else fault out_of_bounds

module _ {ℓ} {A : Type ℓ} where
  pub read_lem : (a : Array A) (i : ℕ) → i < a.size → read a i ≡ done (a.cell i)
  unfolding read
  read_lem a i h = ground arith

  pub write_lem : (a : Array A) (i : ℕ) (v : A) → i < a.size → write a i v ≡ done (written a i v)
  unfolding write
  write_lem a i v h = ground arith

  pub move_lem :
      (dst : Array A) (d : ℕ) (src : Array A) (s n : ℕ)
      → s + n ≤ src.size
      → d + n ≤ dst.size
      → move dst d src s n ≡ done (moved dst d src s n)
  unfolding move
  move_lem dst d src s n h h' = ground arith

  -- A move past the end of the destination is a fault.
  pub move_overflow :
      (dst : Array A) (d : ℕ) (src : Array A) (s n : ℕ)
      → dst.size < d + n
      → move dst d src s n ≡ fault out_of_bounds
  unfolding move
  move_overflow dst d src s n h = ground arith
