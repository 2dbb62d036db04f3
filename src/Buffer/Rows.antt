-- ===== src/Buffer/Rows.antt =====
-- What a new record in src/kv/buffer.h does to the rows of a valid buffer that has room.
use sidle_baselines.Base.{
  ℕ, ◌+◌, ◌-◌, ◌^◌, ◌≤◌, ◌<◌, ◌≡◌, ◌≢◌, refl, inl, inr, some, ◌&&◌, ltb, ◌==◌, if◌then◌else◌, arith,
  Bool-cases, false, ap, ◌∙◌,
}
use native.Mathlib.Decide.{dec_lt}
use sidle_baselines.Memory.{done, Array, add_size, sub_size, moved, written, move_lem, write_lem}
use sidle_baselines.Buffer.Defs.{BufferKv}
use sidle_baselines.Buffer.Operations.{add_record_room}
use sidle_baselines.Buffer.Search.{IsSorted, IsPlace, binary_search-IsPlace}
use sidle_baselines.Buffer.Meaning.{
  rows_meaning, rows_meaning_found, rows_meaning_absent, rows_meaning-IsPlace, missing,
}

-- The arrays fit the rows, which stand in order: `IsValid` less the lock.
pub record HasRows {V : Type 0} (b : BufferKv V) : Type 0 where
  pub fits : b.record_n ≤ b.capacity_n
  pub keys_size : b.keys.size ≡ b.capacity_n
  pub vals_size : b.vals.size ≡ b.capacity_n
  pub small : b.capacity_n < 2 ^ 63
  pub sorted : IsSorted b.keys b.record_n

-- `a` with `v` put in at `p`, in front of the `n - p` cells that follow
abbrev put_in {ℓ} : {A : Type ℓ} → Array A → ℕ → ℕ → A → Array A
put_in a n p v = written (moved a (add_size p 1) a p (sub_size n p)) p v

put_in-cell :
    {A : Type 0} (a : Array A) (n p : ℕ) (v : A)
    → p ≤ n
    → n < 2 ^ 63
    → (i : ℕ) → i < n + 1
    → (put_in a n p v).cell i ≡ (if i == p then v else if ltb i p then a.cell i else a.cell (i - 1))
put_in-cell a n p v h small i q = ground arith

module _ {V : Type 0} (b : BufferKv V) (rows : HasRows b) where
  -- every key has its place
  pub IsPlace-of : (k : ℕ) → (p : ℕ) × IsPlace b.keys b.record_n k p
  IsPlace-of k =
      let (p, _, place) =
        binary_search-IsPlace b k (omega (arith, rows.fits, rows.keys_size))
          (omega (arith, rows.fits, rows.small)) rows.sorted in
      (p, place)

  module _ (k p : ℕ) (v : V) (place : IsPlace b.keys b.record_n k p)
      (new : (ltb p b.record_n && (b.keys.cell p == k)) ≡ false) where
    added_keys :
        (i : ℕ)
        → i < b.record_n + 1
        → (put_in b.keys b.record_n p k).cell i
          ≡ (if i == p then k else if ltb i p then b.keys.cell i else b.keys.cell (i - 1))
    added_keys =
        put_in-cell b.keys b.record_n p k place.inside (omega (arith, rows.fits, rows.small))

    added-IsSorted : IsSorted (put_in b.keys b.record_n p k) (b.record_n + 1)
    added-IsSorted i j q r =
        rw (added_keys i (omega arith), added_keys j r)
          (ground (
            arith,
            rows.sorted i j,
            rows.sorted i (j - 1),
            rows.sorted (i - 1) (j - 1),
            rows.sorted p (j - 1),
            place.below i,
            place.above (j - 1),
            place.above p,
          ))

    added_vals :
        (i : ℕ)
        → i < b.record_n + 1
        → (put_in b.vals b.record_n p v).cell i
          ≡ (if i == p then v else if ltb i p then b.vals.cell i else b.vals.cell (i - 1))
    added_vals =
        put_in-cell b.vals b.record_n p v place.inside (omega (arith, rows.fits, rows.small))

    -- a row that was there keeps its value
    kept_row :
        (j q : ℕ)
        → q < b.record_n
        → b.keys.cell q ≡ j
        → rows_meaning
            (put_in b.keys b.record_n p k)
            (put_in b.vals b.record_n p v)
            (b.record_n + 1)
            j
          ≡ some (b.vals.cell q)
    kept_row j q h e = elim (dec_lt q p) [
      | yes before ↦
          rows_meaning_found _ _ (b.record_n + 1) q j added-IsSorted (omega arith)
            (ground (arith, added_keys q))
          ∙ ap some (ground (arith, added_vals q))
      | no behind ↦
          rows_meaning_found _ _ (b.record_n + 1) (q + 1) j added-IsSorted (omega arith)
            (ground (arith, added_keys (q + 1)))
          ∙ ap some (ground (arith, added_vals (q + 1)))
    ]

    -- The rows with a new one at its place mean the map with that key set.
    added-meaning :
        (j : ℕ)
        → rows_meaning
            (put_in b.keys b.record_n p k)
            (put_in b.vals b.record_n p v)
            (b.record_n + 1)
            j
          ≡ (if j == k then some v else rows_meaning b.keys b.vals b.record_n j)
    added-meaning j = elim (Bool-cases (j == k)) [
      | inl same ↦ rw same (
          rows_meaning_found _ _ (b.record_n + 1) p j added-IsSorted (omega (arith, place.inside))
            (ground (arith, added_keys p, place.inside))
          ∙ ap some (ground (arith, added_vals p, place.inside)))
      | inr other ↦
          let (q, at) = IsPlace-of j in
          rw (other, rows_meaning-IsPlace b.keys b.vals b.record_n j q rows.sorted at)
            (elim (Bool-cases (ltb q b.record_n && (b.keys.cell q == j))) [
              | inl hit ↦ rw hit (kept_row j q (ground arith) (ground arith))
              | inr miss ↦ rw miss (
                  rows_meaning_absent _ _ (b.record_n + 1) j (λ i r. rw (added_keys i r) (
                    ground (
                      arith,
                      missing b.keys b.vals b.record_n j q rows.sorted at miss i,
                      missing b.keys b.vals b.record_n j q rows.sorted at miss (i - 1),
                      place.inside,
                    ))))
            ])
    ]

    pub add_record_room_lem :
        b.record_n ≢ b.capacity_n
        → (c : BufferKv V) × (add_record_room b p k v ≡ done c)
          × HasRows c
          × (c.lock ≡ b.lock)
          × (c.capacity_n ≡ b.capacity_n)
          × ((j : ℕ)
              → rows_meaning c.keys c.vals c.record_n j
                ≡ (if j == k then some v else rows_meaning b.keys b.vals b.record_n j))
    unfolding add_record_room
    add_record_room_lem room = (
      record b {
        keys = put_in b.keys b.record_n p k;
        vals = put_in b.vals b.record_n p v;
        record_n = b.record_n + 1;
      },
      ground (
        arith,
        rows.fits,
        rows.keys_size,
        rows.vals_size,
        rows.small,
        place.inside,
        move_lem b.keys (add_size p 1) b.keys p (sub_size b.record_n p),
        move_lem b.vals (add_size p 1) b.vals p (sub_size b.record_n p),
        write_lem (moved b.keys (add_size p 1) b.keys p (sub_size b.record_n p)) p k,
        write_lem (moved b.vals (add_size p 1) b.vals p (sub_size b.record_n p)) p v,
      ),
      record {
        fits = omega (arith, rows.fits);
        keys_size = rows.keys_size;
        vals_size = rows.vals_size;
        small = rows.small;
        sorted = added-IsSorted;
      },
      refl,
      refl,
      added-meaning,
    )
