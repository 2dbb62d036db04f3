-- ===== src/Buffer/Dropped.antt =====
-- What the block of `remove` in src/kv/buffer.h does to the rows of a valid buffer.
use sidle_baselines.Base.{
  ℕ, ◌+◌, ◌-◌, ◌^◌, ◌<◌, ◌≡◌, refl, ◌∙◌, ap, inl, inr, none, some, ◌&&◌, ltb, ◌==◌, if◌then◌else◌,
  arith, Bool-cases, false,
}
use native.Mathlib.Decide.{dec_lt}
use sidle_baselines.Memory.{done, Array, add_size, sub_size, moved, move_lem}
use sidle_baselines.Buffer.Defs.{BufferKv}
use sidle_baselines.Buffer.Operations.{drop_record}
use sidle_baselines.Buffer.Search.{IsSorted}
use sidle_baselines.Buffer.Rows.{HasRows, IsPlace-of}
use sidle_baselines.Buffer.Meaning.{
  rows_meaning, rows_meaning_found, rows_meaning_absent, rows_meaning-IsPlace, missing,
}

-- `a` less the cell at `p`
abbrev cut_out {ℓ} : {A : Type ℓ} → Array A → ℕ → ℕ → Array A
cut_out a n p = moved a p a (add_size p 1) (sub_size (sub_size n p) 1)

cut_out-cell :
    {A : Type 0} (a : Array A) (n p : ℕ)
    → p < n
    → n < 2 ^ 63
    → (i : ℕ) → i < n - 1
    → (cut_out a n p).cell i ≡ (if ltb i p then a.cell i else a.cell (i + 1))
cut_out-cell a n p h small i q = ground arith

module _ {V : Type 0} (b : BufferKv V) (rows : HasRows b) (k p : ℕ) (inside : p < b.record_n)
    (at_p : b.keys.cell p ≡ k) where
  cut_keys :
      (i : ℕ)
      → i < b.record_n - 1
      → (cut_out b.keys b.record_n p).cell i
        ≡ (if ltb i p then b.keys.cell i else b.keys.cell (i + 1))
  cut_keys = cut_out-cell b.keys b.record_n p inside (omega (arith, rows.fits, rows.small))

  cut_vals :
      (i : ℕ)
      → i < b.record_n - 1
      → (cut_out b.vals b.record_n p).cell i
        ≡ (if ltb i p then b.vals.cell i else b.vals.cell (i + 1))
  cut_vals = cut_out-cell b.vals b.record_n p inside (omega (arith, rows.fits, rows.small))

  cut-IsSorted : IsSorted (cut_out b.keys b.record_n p) (b.record_n - 1)
  cut-IsSorted i j q r =
      rw (cut_keys i (omega arith), cut_keys j r)
        (ground (arith, rows.sorted i j, rows.sorted i (j + 1), rows.sorted (i + 1) (j + 1)))

  -- a row of another key keeps its value
  kept_row :
      (j q : ℕ)
      → (j == k) ≡ false
      → q < b.record_n
      → b.keys.cell q ≡ j
      → rows_meaning (cut_out b.keys b.record_n p) (cut_out b.vals b.record_n p) (b.record_n - 1) j
        ≡ some (b.vals.cell q)
  kept_row j q other h e = elim (dec_lt q p) [
    | yes before ↦
        rows_meaning_found _ _ (b.record_n - 1) q j cut-IsSorted (omega arith)
          (ground (arith, cut_keys q))
        ∙ ap some (ground (arith, cut_vals q))
    | no behind ↦
        let other_row : p < q = ground arith in
        rows_meaning_found _ _ (b.record_n - 1) (q - 1) j cut-IsSorted (omega arith)
          (ground (arith, cut_keys (q - 1)))
        ∙ ap some (ground (arith, cut_vals (q - 1)))
  ]

  -- The rows less one mean the map less its key.
  cut-meaning :
      (j : ℕ)
      → rows_meaning (cut_out b.keys b.record_n p) (cut_out b.vals b.record_n p) (b.record_n - 1) j
        ≡ (if j == k then none else rows_meaning b.keys b.vals b.record_n j)
  cut-meaning j = elim (Bool-cases (j == k)) [
    | inl same ↦ rw same (
        rows_meaning_absent _ _ (b.record_n - 1) j
          (λ i r. rw (cut_keys i r) (ground (arith, rows.sorted i p, rows.sorted p (i + 1)))))
    | inr other ↦
        let (q, at) = IsPlace-of b rows j in
        rw (other, rows_meaning-IsPlace b.keys b.vals b.record_n j q rows.sorted at)
          (elim (Bool-cases (ltb q b.record_n && (b.keys.cell q == j))) [
            | inl hit ↦ rw hit (kept_row j q other (ground arith) (ground arith))
            | inr miss ↦ rw miss (
                rows_meaning_absent _ _ (b.record_n - 1) j (λ i r. rw (cut_keys i r) (
                  ground (
                    arith,
                    missing b.keys b.vals b.record_n j q rows.sorted at miss i,
                    missing b.keys b.vals b.record_n j q rows.sorted at miss (i + 1),
                  ))))
          ])
  ]

  pub drop_record_lem :
      (c : BufferKv V) × (drop_record b p ≡ done c)
      × HasRows c
      × (c.lock ≡ b.lock)
      × (c.capacity_n ≡ b.capacity_n)
      × ((j : ℕ)
          → rows_meaning c.keys c.vals c.record_n j
            ≡ (if j == k then none else rows_meaning b.keys b.vals b.record_n j))
  unfolding drop_record
  drop_record_lem = (
    record b {
      keys = cut_out b.keys b.record_n p;
      vals = cut_out b.vals b.record_n p;
      record_n = b.record_n - 1;
    },
    ground (
      arith,
      rows.fits,
      rows.keys_size,
      rows.vals_size,
      rows.small,
      move_lem b.keys p b.keys (add_size p 1) (sub_size (sub_size b.record_n p) 1),
      move_lem b.vals p b.vals (add_size p 1) (sub_size (sub_size b.record_n p) 1),
    ),
    record {
      fits = omega (arith, rows.fits);
      keys_size = rows.keys_size;
      vals_size = rows.vals_size;
      small = rows.small;
      sorted = cut-IsSorted;
    },
    refl,
    refl,
    cut-meaning,
  )
