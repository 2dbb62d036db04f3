-- ===== src/Helper/Ranges.antt =====
-- src/helper.h: `max_range`, between the iterators of an array.
use sidle_baselines.Base.{
  ℕ, zero, suc, ◌+◌, ◌-◌, ◌≤◌, ◌<◌, ◌≡◌, ◌≢◌, refl, ◌∙◌, sym, true, false, List, [], ◌∷◌, ◌==◌,
  if◌then◌else◌, ltb, arith,
}
use sidle_baselines.Memory.{done, fault, assert_failed, out_of_bounds, Array, read, read_lem}
use sidle_baselines.Helper.Extremes.{Comparable, IsOrder, max_loop, max, range_loop, max_range}

-- the cells from the i-th, n of them
abbrev pub slice : {A : Type 0} → Array A → ℕ → ℕ → List A
slice vals i zero = []
slice vals i (suc n) = vals.cell i ∷ slice vals (i + 1) n

module _ {A : Type 0} (c : Comparable A) where
  range_loop-end :
      (fuel : ℕ) (vals : Array A) (i end : ℕ) (m : A)
      → i ≡ end
      → range_loop c (suc fuel) vals i end m ≡ done m
  unfolding range_loop
  range_loop-end fuel vals i end m e = ground (arith, e)

  range_loop-outside :
      (fuel : ℕ) (vals : Array A) (i end : ℕ) (m : A)
      → i ≢ end
      → vals.size ≤ i
      → range_loop c (suc fuel) vals i end m ≡ fault out_of_bounds
  unfolding range_loop read
  range_loop-outside fuel vals i end m apart outside =
      let test : i == end ≡ false = ground arith in
      let beyond : ltb i vals.size ≡ false = ground arith in rw test (rw beyond refl)

  range_loop-on :
      (fuel : ℕ) (vals : Array A) (i end : ℕ) (m : A)
      → i ≢ end
      → i < vals.size
      → range_loop c (suc fuel) vals i end m
        ≡ range_loop c fuel vals (i + 1) end (if c.less m (vals.cell i) then vals.cell i else m)
  unfolding range_loop
  range_loop-on fuel vals i end m apart inside =
      let test : i == end ≡ false = ground arith in rw (test, read_lem vals i inside) refl

  range_loop-past :
      (k : ℕ) (vals : Array A) (i end : ℕ) (m : A)
      → end < i
      → k ≡ vals.size - i
      → range_loop c (suc k) vals i end m ≡ fault out_of_bounds
  range_loop-past zero vals i end m past e =
      range_loop-outside zero vals i end m (λ same. omega (arith, same)) (omega arith)
  range_loop-past (suc k) vals i end m past e =
      range_loop-on (suc k) vals i end m (λ same. omega (arith, same)) (omega arith)
      ∙ range_loop-past k vals (i + 1) end _ (omega arith) (omega arith)

  max_range-loop :
      (vals : Array A) (begin end : ℕ)
      → end ≢ begin
      → begin < vals.size
      → max_range c vals begin end
        ≡ range_loop c (suc (vals.size - begin)) vals begin end (vals.cell begin)
  unfolding max_range
  max_range-loop vals begin end apart inside =
      let test : end == begin ≡ false = ground arith in rw (test, read_lem vals begin inside) refl

  -- `max_range` fails its assertion where its iterators are equal. Where the second one is before the
  -- first, which is in the array, it reads on past the end of the array.
  pub max_range-faults :
      (vals : Array A) (begin end : ℕ)
      → (begin ≡ end → max_range c vals begin end ≡ fault assert_failed)
        × (end < begin → begin < vals.size → max_range c vals begin end ≡ fault out_of_bounds)
  unfolding max_range
  max_range-faults vals begin end = (
    λ same. let test : end == begin ≡ true = ground arith in rw test refl,
    λ past inside.
        max_range-loop vals begin end (λ same. omega (arith, same, past)) inside
        ∙ range_loop-past (vals.size - begin) vals begin end (vals.cell begin) past refl,
  )

module _ {A : Type 0} (c : Comparable A) (order : IsOrder c) where
  range_loop-round :
      (fuel : ℕ) (vals : Array A) (i end : ℕ) (m : A)
      → i ≢ end
      → i < vals.size
      → range_loop c (suc fuel) vals i end m
        ≡ range_loop c fuel vals (i + 1) end (if c.greater (vals.cell i) m then vals.cell i else m)
  range_loop-round fuel vals i end m apart inside =
      rw (order.converse (vals.cell i) m) (range_loop-on c fuel vals i end m apart inside)

  range_loop-slice :
      (k fuel : ℕ) (vals : Array A) (i end : ℕ) (m : A)
      → end ≡ i + k
      → k ≤ fuel
      → end ≤ vals.size
      → range_loop c (suc fuel) vals i end m ≡ done (max_loop c (slice vals i k) m)
  unfolding max_loop
  range_loop-slice zero fuel vals i end m e more inside =
      range_loop-end c fuel vals i end m (omega (arith, e))
  range_loop-slice (suc k) zero vals i end m e more inside = absurd (omega arith)
  range_loop-slice (suc k) (suc fuel) vals i end m e more inside =
      range_loop-round (suc fuel) vals i end m (λ same. omega (arith, same, e)) (omega (arith, e))
      ∙ range_loop-slice k fuel vals (i + 1) end _ (omega (arith, e)) (omega arith) inside

  max-slice :
      (vals : Array A) (i n : ℕ)
      → 0 < n
      → max c (slice vals i n) ≡ done (max_loop c (slice vals i n) (vals.cell i))
  unfolding max
  max-slice vals i zero h = absurd (omega arith)
  max-slice vals i (suc n) h = refl

  -- Where the operators are those of an order, `max_range` between two iterators of one array, the first
  -- before the second, returns what `max` returns of the values between them.
  pub max_range-max :
      (vals : Array A) (begin end : ℕ)
      → begin < end
      → end ≤ vals.size
      → max_range c vals begin end ≡ max c (slice vals begin (end - begin))
  max_range-max vals begin end before inside =
      max_range-loop c vals begin end (λ same. omega (arith, same)) (omega arith)
      ∙ range_loop-slice (end - begin) (vals.size - begin) vals begin end (vals.cell begin)
          (omega arith) (omega arith) inside
      ∙ sym (max-slice vals begin (end - begin) (omega arith))
