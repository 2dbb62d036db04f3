-- ===== src/Helper/Extremes.antt =====
-- src/helper.h: `min_max`, `max`, `max_range` and `mean`, for every type of values.
use sidle_baselines.Base.{
  ℕ, zero, suc, ◌+◌, ◌-◌, ◌≡◌, Bool, true, false, not, List, [], ◌∷◌, length, ◌==◌, if◌then◌else◌,
}
use sidle_baselines.Memory.{
  Run, done, fault, assert_failed, out_of_fuel, ◌>>=◌, ◌>>◌, check, Array, read,
}

-- the operators < and > of a type
pub record Comparable (A : Type 0) : Type 0 where
  pub less : A → A → Bool
  pub greater : A → A → Bool

-- They are those of one order, in which every two values can be compared.
pub record IsOrder {A : Type 0} (c : Comparable A) : Type 0 where
  pub converse : (a b : A) → c.greater a b ≡ c.less b a
  pub irreflexive : (a : A) → c.less a a ≡ false
  pub asymmetric : (a b : A) → c.less a b ≡ true → c.less b a ≡ false
  -- what is not above b is not above anything above b
  pub bounded : (a b d : A) → c.less b a ≡ false → c.less d b ≡ false → c.less d a ≡ false

module _ {A : Type 0} (c : Comparable A) where
  -- the rounds of the loop of `max`
  unfoldable pub max_loop : List A → A → A
  max_loop [] m = m
  max_loop (v ∷ vals) m = max_loop vals (if c.greater v m then v else m)

  unfoldable pub max : List A → Run A
  unfolding max_loop
  max [] = fault assert_failed
  max (v ∷ vals) = done (max_loop (v ∷ vals) v)

  -- the rounds of the loop of `min_max`: the maximum and the minimum
  unfoldable pub min_max_loop : List A → A → A → A × A
  min_max_loop [] m n = (m, n)
  min_max_loop (v ∷ vals) m n =
      min_max_loop vals (if c.greater v m then v else m) (if c.less v n then v else n)

  unfoldable pub min_max : List A → Run (A × A)
  unfolding min_max_loop
  min_max [] = fault assert_failed
  min_max (v ∷ vals) = done (min_max_loop (v ∷ vals) v v)

  -- the loop of `max_range`, whose iterators are positions in an array, for at most `fuel` rounds
  unfoldable pub range_loop : ℕ → Array A → ℕ → ℕ → A → Run A
  range_loop zero vals iter end m = fault out_of_fuel
  range_loop (suc fuel) vals iter end m =
      if iter == end
      then done m
      else read vals iter >>= λ v. range_loop fuel vals (iter + 1) end (if c.less m v then v else m)

  -- with a round for each position up to the end of the array, at which a read fails
  unfoldable pub max_range : Array A → ℕ → ℕ → Run A
  unfolding range_loop
  max_range vals begin end = do
    check (not (end == begin))
    m ← read vals begin
    range_loop (suc (vals.size - begin)) vals begin end m

-- `double`, as far as `mean` uses it
pub record Doubles (A F : Type 0) : Type 0 where
  pub nought : F
  pub add : F → A → F
  pub divide : F → ℕ → F

module _ {A F : Type 0} (d : Doubles A F) where
  unfoldable pub sum_loop : List A → F → F
  sum_loop [] sum = sum
  sum_loop (v ∷ vals) sum = sum_loop vals (d.add sum v)

  -- also of no values, which is a division by zero
  unfoldable pub mean : List A → F
  unfolding sum_loop
  mean vals = d.divide (sum_loop vals d.nought) (length vals)
