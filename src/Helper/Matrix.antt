-- ===== src/Helper/Matrix.antt =====
-- src/helper.h and src/helper.cpp: the two `print_matrix`, which print alike.
use sidle_baselines.Base.{
  ℕ, zero, suc, ◌+◌, ◌*◌, ◌%◌, ◌≤◌, ◌<◌, ◌≡◌, refl, sym, List, [], ◌∷◌, ◌++◌, arith,
}
use native.Mathlib.Nat.{suc-mul, add-mul, one-mul, zero-mul}
use sidle_baselines.Memory.{Run, done, ◌>>=◌, Array, read, read_lem, size_mod}

-- what is printed: a number and a tab, or the blank and the line's end
pub data Output (A : Type 0) : Type 0 where
  number : A → Output A
  end_line : Output A

module _ {A : Type 0} where
  -- the inner loop, `left` columns from the col_i-th on
  unfoldable pub print_columns : Array A → ℕ → ℕ → ℕ → ℕ → Run (List (Output A))
  print_columns data_ col_n row_i col_i zero = done []
  print_columns data_ col_n row_i col_i (suc left) =
      read data_ ((row_i * col_n % size_mod + col_i) % size_mod) >>= λ v.
      print_columns data_ col_n row_i (col_i + 1) left >>= λ rest. done (number v ∷ rest)

  -- the outer loop, `left` rows from the row_i-th on
  unfoldable pub print_rows : Array A → ℕ → ℕ → ℕ → Run (List (Output A))
  unfolding print_columns
  print_rows data_ col_n row_i zero = done []
  print_rows data_ col_n row_i (suc left) = print_columns data_ col_n row_i 0 col_n >>= λ line.
      print_rows data_ col_n (row_i + 1) left >>= λ rest. done (line ++ end_line ∷ rest)

  unfoldable pub print_matrix : Array A → ℕ → ℕ → Run (List (Output A))
  unfolding print_rows
  print_matrix data_ row_n col_n = print_rows data_ col_n 0 row_n

  -- the cells from the i-th, n of them, as they are printed
  abbrev pub numbers : Array A → ℕ → ℕ → List (Output A)
  numbers data_ i zero = []
  numbers data_ i (suc n) = number (data_.cell i) ∷ numbers data_ (i + 1) n

  -- the lines of an array that is laid out row after row, from the i-th cell on
  abbrev pub lines : Array A → ℕ → ℕ → ℕ → List (Output A)
  lines data_ i zero col_n = []
  lines data_ i (suc row_n) col_n =
      numbers data_ i col_n ++ end_line ∷ lines data_ (i + col_n) row_n col_n

  print_columns-numbers :
      (data_ : Array A) (col_n row_i col_i left i : ℕ)
      → i ≡ row_i * col_n + col_i
      → i + left ≤ data_.size
      → data_.size < size_mod
      → print_columns data_ col_n row_i col_i left ≡ done (numbers data_ i left)
  unfolding print_columns
  print_columns-numbers data_ col_n row_i col_i zero i e inside small = refl
  print_columns-numbers data_ col_n row_i col_i (suc left) i e inside small =
      let index : (row_i * col_n % size_mod + col_i) % size_mod ≡ i = omega arith in
      let rest =
        print_columns-numbers data_ col_n row_i (col_i + 1) left (i + 1) (omega arith) (omega arith)
          small in
      rw (index, read_lem data_ i (omega arith)) (rw rest refl)

  print_rows-lines :
      (data_ : Array A) (col_n row_i left i : ℕ)
      → i ≡ row_i * col_n
      → i + left * col_n ≤ data_.size
      → data_.size < size_mod
      → print_rows data_ col_n row_i left ≡ done (lines data_ i left col_n)
  unfolding print_rows
  print_rows-lines data_ col_n row_i zero i e inside small = refl
  print_rows-lines data_ col_n row_i (suc left) i e inside small =
      let none_left : row_i * col_n + 0 ≡ row_i * col_n = omega arith in
      let lines_left = suc-mul left col_n in
      let next : i + col_n ≡ (row_i + 1) * col_n =
        omega (arith, e, add-mul row_i 1 col_n, one-mul col_n) in
      let line =
        print_columns-numbers data_ col_n row_i 0 col_n i (omega (arith, e))
          (omega (arith, inside, lines_left)) small in
      let rest =
        print_rows-lines data_ col_n (row_i + 1) left (i + col_n) next
          (omega (arith, inside, lines_left)) small in
      rw line (rw rest refl)

  -- Of an array with as many cells as the matrix or more, which fits the address space, `print_matrix`
  -- prints the cells in their order, col_n on each line.
  pub print_matrix-lines :
      (data_ : Array A) (row_n col_n : ℕ)
      → row_n * col_n ≤ data_.size
      → data_.size < size_mod
      → print_matrix data_ row_n col_n ≡ done (lines data_ 0 row_n col_n)
  unfolding print_matrix
  print_matrix-lines data_ row_n col_n inside small =
      print_rows-lines data_ col_n 0 row_n 0 (sym (zero-mul col_n)) (omega (arith, inside)) small
