-- ===== src/Tpcc/Places.antt =====
-- benchmark/real_world/tpcc.cpp: reading and writing the two vectors of vectors.
use sidle_baselines.Base.{ℕ, ◌-◌, ◌≤◌, ◌<◌, ◌≡◌, ◌≢◌, ◌⊎◌, arith}
use sidle_baselines.Memory.{done, Array, read_lem, write_lem, written, sub_size, size_mod}
use sidle_baselines.Tpcc.Store.{read_pair, read_triple, write_pair, write_triple}

module _ {A : Type 0} where
  pub read_pair_lem :
      (rows : Array (Array A)) (i j : ℕ)
      → 1 ≤ i
      → i ≤ rows.size
      → i < size_mod
      → 1 ≤ j
      → j ≤ (rows.cell (i - 1)).size
      → j < size_mod
      → read_pair rows i j ≡ done ((rows.cell (i - 1)).cell (j - 1))
  unfolding read_pair
  read_pair_lem rows i j i_pos i_le i_small j_pos j_le j_small =
      let at_i : sub_size i 1 ≡ i - 1 = omega arith in
      let at_j : sub_size j 1 ≡ j - 1 = omega arith in
      rw (at_i, at_j, read_lem rows (i - 1) (omega arith))
        (read_lem (rows.cell (i - 1)) (j - 1) (omega arith))

  pub read_triple_lem :
      (rows : Array (Array (Array A))) (i j k : ℕ)
      → 1 ≤ i
      → i ≤ rows.size
      → i < size_mod
      → 1 ≤ j
      → j ≤ (rows.cell (i - 1)).size
      → j < size_mod
      → 1 ≤ k
      → k ≤ ((rows.cell (i - 1)).cell (j - 1)).size
      → k < size_mod
      → read_triple rows i j k ≡ done (((rows.cell (i - 1)).cell (j - 1)).cell (k - 1))
  unfolding read_triple
  read_triple_lem rows i j k i_pos i_le i_small j_pos j_le j_small k_pos k_le k_small =
      let at_i : sub_size i 1 ≡ i - 1 = omega arith in
      rw (at_i, read_lem rows (i - 1) (omega arith))
        (read_pair_lem (rows.cell (i - 1)) j k j_pos j_le j_small k_pos k_le k_small)

  -- the vectors after `rows[i - 1][j - 1] = x` and `rows[i - 1][j - 1][k - 1] = x`
  abbrev pub pair_written : Array (Array A) → ℕ → ℕ → A → Array (Array A)
  pair_written rows i j x = written rows (i - 1) (written (rows.cell (i - 1)) (j - 1) x)

  abbrev pub triple_written : Array (Array (Array A)) → ℕ → ℕ → ℕ → A → Array (Array (Array A))
  triple_written rows i j k x =
      written rows (i - 1)
        (written (rows.cell (i - 1)) (j - 1) (written ((rows.cell (i - 1)).cell (j - 1)) (k - 1) x))

  pub write_pair_lem :
      (rows : Array (Array A)) (i j : ℕ) (x : A)
      → 1 ≤ i
      → i ≤ rows.size
      → i < size_mod
      → 1 ≤ j
      → j ≤ (rows.cell (i - 1)).size
      → j < size_mod
      → write_pair rows i j x ≡ done (pair_written rows i j x)
  unfolding write_pair
  write_pair_lem rows i j x i_pos i_le i_small j_pos j_le j_small =
      let at_i : sub_size i 1 ≡ i - 1 = omega arith in
      let at_j : sub_size j 1 ≡ j - 1 = omega arith in
      let row = rows.cell (i - 1) in
      rw (at_i, at_j, read_lem rows (i - 1) (omega arith), write_lem row (j - 1) x (omega arith))
        (write_lem rows (i - 1) (written row (j - 1) x) (omega arith))

  pub write_triple_lem :
      (rows : Array (Array (Array A))) (i j k : ℕ) (x : A)
      → 1 ≤ i
      → i ≤ rows.size
      → i < size_mod
      → 1 ≤ j
      → j ≤ (rows.cell (i - 1)).size
      → j < size_mod
      → 1 ≤ k
      → k ≤ ((rows.cell (i - 1)).cell (j - 1)).size
      → k < size_mod
      → write_triple rows i j k x ≡ done (triple_written rows i j k x)
  unfolding write_triple
  write_triple_lem rows i j k x i_pos i_le i_small j_pos j_le j_small k_pos k_le k_small =
      let at_i : sub_size i 1 ≡ i - 1 = omega arith in
      let e = write_pair_lem (rows.cell (i - 1)) j k x j_pos j_le j_small k_pos k_le k_small in
      rw (at_i, read_lem rows (i - 1) (omega arith), e)
        (write_lem rows (i - 1) (pair_written (rows.cell (i - 1)) j k x) (omega arith))

  pub pair_written-at :
      (rows : Array (Array A)) (i j : ℕ) (x : A)
      → ((pair_written rows i j x).cell (i - 1)).cell (j - 1) ≡ x
  pair_written-at rows i j x = ground arith

  pub triple_written-at :
      (rows : Array (Array (Array A))) (i j k : ℕ) (x : A)
      → (((triple_written rows i j k x).cell (i - 1)).cell (j - 1)).cell (k - 1) ≡ x
  triple_written-at rows i j k x = ground arith

  pub pair_written-other :
      (rows : Array (Array A)) (i j : ℕ) (x : A) (i' j' : ℕ)
      → (i - 1 ≢ i') ⊎ (j - 1 ≢ j')
      → ((pair_written rows i j x).cell i').cell j' ≡ (rows.cell i').cell j'
  pair_written-other rows i j x i' j' apart = ground arith

  pub pair_written-size :
      (rows : Array (Array A)) (i j : ℕ) (x : A) (k : ℕ)
      → ((pair_written rows i j x).cell k).size ≡ (rows.cell k).size
  pair_written-size rows i j x k = ground arith

  pub triple_written-size :
      (rows : Array (Array (Array A))) (i j k : ℕ) (x : A) (a b : ℕ)
      → (((triple_written rows i j k x).cell a).size ≡ (rows.cell a).size)
        × ((((triple_written rows i j k x).cell a).cell b).size ≡ ((rows.cell a).cell b).size)
  triple_written-size rows i j k x a b = (ground arith, ground arith)
