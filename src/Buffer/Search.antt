-- ===== src/Buffer/Search.antt =====
-- src/kv/buffer.h: what it is for a buffer to be valid, and `binary_search` on one.
use sidle_baselines.Base.{
  ℕ, zero, suc, ◌-◌, ◌/◌, ◌^◌, ◌≤◌, ◌<◌, ◌≡◌, refl, ◌&&◌, ltb, ◌==◌, ◌∙◌, arith,
}
use native.Mathlib.Decide.{dec_lt}
use sidle_baselines.Memory.{done, Array, read_lem, add_size}
use sidle_baselines.Buffer.Defs.{BufferKv, readers, search_loop, binary_search}

-- Rows `[0, n)` of the key array stand in ascending order, each key once.
abbrev pub IsSorted : Array ℕ → ℕ → Type 0
IsSorted keys n = (i j : ℕ) → i < j → j < n → keys.cell i < keys.cell j

-- The invariant of a buffer between two calls.
pub record IsValid {V : Type 0} (b : BufferKv V) : Type 0 where
  pub fits : b.record_n ≤ b.capacity_n
  pub keys_size : b.keys.size ≡ b.capacity_n
  pub vals_size : b.vals.size ≡ b.capacity_n
  pub small : b.capacity_n < 2 ^ 63
  pub sorted : IsSorted b.keys b.record_n
  pub released : b.lock ≡ readers 0

-- `p` is the place of `k` in rows `[0, n)`: the keys before it are smaller, the others are not.
pub record IsPlace (keys : Array ℕ) (n k p : ℕ) : Type 0 where
  pub inside : p ≤ n
  pub below : (i : ℕ) → i < p → keys.cell i < k
  pub above : (i : ℕ) → p ≤ i → i < n → k ≤ keys.cell i

mid_bounds :
    (lo hi : ℕ) → lo < hi → hi < 2 ^ 63 → (lo ≤ add_size lo hi / 2) × (add_size lo hi / 2 < hi)
mid_bounds lo hi h small = omega arith

module _ (fuel : ℕ) (keys : Array ℕ) (k lo hi mid : ℕ) where
  search_loop_stop : hi ≤ lo → search_loop (suc fuel) keys k lo hi mid ≡ done (lo, hi, mid)
  unfolding search_loop
  search_loop_stop h = ground arith

  search_loop_up :
      lo < hi
      → mid < keys.size
      → keys.cell mid < k
      → search_loop (suc fuel) keys k lo hi mid
        ≡ search_loop fuel keys k (add_size mid 1) hi (add_size (add_size mid 1) hi / 2)
  unfolding search_loop
  search_loop_up h inside up = ground (arith, read_lem keys mid inside)

  search_loop_down :
      lo < hi
      → mid < keys.size
      → k ≤ keys.cell mid
      → search_loop (suc fuel) keys k lo hi mid
        ≡ search_loop fuel keys k lo mid (add_size lo mid / 2)
  unfolding search_loop
  search_loop_down h inside down = ground (arith, read_lem keys mid inside)

module _ (keys : Array ℕ) (n k : ℕ) (fits : n ≤ keys.size) (small : n < 2 ^ 63)
    (sorted : IsSorted keys n) where
  -- With fuel for the rows that are left the loop ends, at the place of the key.
  search_loop-IsPlace :
      (fuel lo hi mid : ℕ)
      → hi - lo < fuel
      → lo ≤ hi
      → hi ≤ n
      → mid ≡ add_size lo hi / 2
      → ((i : ℕ) → i < lo → keys.cell i < k)
      → ((i : ℕ) → hi ≤ i → i < n → k ≤ keys.cell i)
      → (p : ℕ) × (search_loop fuel keys k lo hi mid ≡ done (p, p, p)) × IsPlace keys n k p
  search_loop-IsPlace zero lo hi mid m o h is_mid below above = elim m [ ]
  search_loop-IsPlace (suc fuel) lo hi mid m o h is_mid below above = elim (dec_lt lo hi) [
    | no stop ↦ (
      lo,
      search_loop_stop fuel keys k lo hi mid (omega arith) ∙ ground arith,
      record { inside = omega arith; below = below; above = λ i p q. above i (omega arith) q },
    )
    | yes go ↦
        let bounds = mid_bounds lo hi go (omega arith) in
        elim (dec_lt (keys.cell mid) k) [
          | yes up ↦
              let (p, e, place) =
                search_loop-IsPlace fuel (add_size mid 1) hi (add_size (add_size mid 1) hi / 2)
                  (omega arith) (omega arith) h refl (λ i q. grind (arith, sorted i mid)) above in
              (p, search_loop_up fuel keys k lo hi mid go (omega arith) up ∙ e, place)
          | no down ↦
              let (p, e, place) =
                search_loop-IsPlace fuel lo mid (add_size lo mid / 2) (omega arith) (omega arith)
                  (omega arith) refl below (λ i q r. grind (arith, sorted mid i)) in
              (p, search_loop_down fuel keys k lo hi mid go (omega arith) (omega arith) ∙ e, place)
        ]
  ]

-- On a valid buffer, or one whose lock alone is taken, the search returns the place of the key, and
-- whether the key stands there.
pub binary_search-IsPlace :
    {V : Type 0} (b : BufferKv V) (k : ℕ)
    → b.record_n ≤ b.keys.size
    → b.record_n < 2 ^ 63
    → IsSorted b.keys b.record_n
    → (p : ℕ) × (binary_search b k ≡ done (ltb p b.record_n && (b.keys.cell p == k), p))
      × IsPlace b.keys b.record_n k p
unfolding binary_search
binary_search-IsPlace b k fits small sorted =
    let (p, e, place) =
      search_loop-IsPlace b.keys b.record_n k fits small sorted (suc b.record_n) 0 b.record_n
        (b.record_n / 2) (omega arith) (omega arith) (omega arith) (omega arith)
        (λ i q. absurd (omega arith)) (λ i q r. absurd (omega arith)) in
    (p, ground (arith, e, read_lem b.keys p), place)
