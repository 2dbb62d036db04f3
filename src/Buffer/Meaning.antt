-- ===== src/Buffer/Meaning.antt =====
-- The abstract view of a `BufferKV`: the finite map from the keys of its rows to their values.
use sidle_baselines.Base.{
  ℕ, zero, suc, ◌<◌, ◌≡◌, ◌≢◌, refl, Option, none, some, ◌&&◌, ltb, ◌==◌, if◌then◌else◌, arith,
  false, Bool-cases, inl, inr,
}
use sidle_baselines.Memory.{Array}
use sidle_baselines.Buffer.Defs.{BufferKv}
use sidle_baselines.Buffer.Search.{IsSorted, IsPlace}

module _ {V : Type 0} (keys : Array ℕ) (vals : Array V) where
  -- the value at `k` in rows `[0, n)`
  unfoldable pub rows_meaning : ℕ → ℕ → Option V
  rows_meaning zero k = none
  rows_meaning (suc n) k = if keys.cell n == k then some (vals.cell n) else rows_meaning n k

  pub rows_meaning_found :
      (n i k : ℕ)
      → IsSorted keys n
      → i < n
      → keys.cell i ≡ k
      → rows_meaning n k ≡ some (vals.cell i)
  unfolding rows_meaning
  rows_meaning_found zero i k s h e = elim h [ ]
  rows_meaning_found (suc n) i k s h e =
      ground (arith, s i n, rows_meaning_found n i k (λ a b p q. s a b p (omega arith)))

  pub rows_meaning_absent :
      (n k : ℕ) → ((i : ℕ) → i < n → keys.cell i ≢ k) → rows_meaning n k ≡ none
  unfolding rows_meaning
  rows_meaning_absent zero k h = refl
  rows_meaning_absent (suc n) k h =
      ground (arith, h n, rows_meaning_absent n k (λ i p. h i (omega arith)))

  pub missing :
      (n k p : ℕ)
      → IsSorted keys n
      → IsPlace keys n k p
      → (ltb p n && (keys.cell p == k)) ≡ false
      → (i : ℕ) → i < n
      → keys.cell i ≢ k
  missing n k p s place e i h = ground (arith, place.below i, place.above p, s p i)

  -- At its place a key is found or is nowhere.
  pub rows_meaning-IsPlace :
      (n k p : ℕ)
      → IsSorted keys n
      → IsPlace keys n k p
      → rows_meaning n k ≡ (if ltb p n && (keys.cell p == k) then some (vals.cell p) else none)
  rows_meaning-IsPlace n k p s place = elim (Bool-cases (ltb p n && (keys.cell p == k))) [
    | inl hit ↦ rw hit (rows_meaning_found n p k s (ground arith) (ground arith))
    | inr miss ↦ rw miss (rows_meaning_absent n k (missing n k p s place miss))
  ]

unfoldable pub meaning : {V : Type 0} → BufferKv V → ℕ → Option V
unfolding rows_meaning
meaning b = rows_meaning b.keys b.vals b.record_n
