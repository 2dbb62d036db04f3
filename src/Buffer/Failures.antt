-- ===== src/Buffer/Failures.antt =====
-- src/kv/buffer.h where a buffer is full and where the lock was never made.
use sidle_baselines.Base.{
  ℕ, ◌+◌, ◌^◌, ◌≤◌, ◌<◌, ◌≡◌, refl, true, false, none, List, [], ◌∷◌, ◌&&◌, ltb, ◌==◌,
  if◌then◌else◌, arith, length,
}
use sidle_baselines.Memory.{
  done, fault, out_of_bounds, lock_uninitialised, fresh, move, add_size, size_mod, write_lem,
  written, Array,
}
use sidle_baselines.Buffer.Defs.{BufferKv, Heap, writer, uninitialised}
use sidle_baselines.Buffer.Operations.{
  get, insert, insert_if_not_exst, remove, add_record, add_record_full, create_from, fill,
}
use sidle_baselines.Buffer.Search.{IsPlace, IsValid}
use sidle_baselines.Buffer.Refinement.{search_lem, locked}
use sidle_baselines.Buffer.Meaning.{meaning}

module _ {V : Type 0} (heap : Heap V) (b : BufferKv V) (k p : ℕ) (v : V)
    (place : IsPlace b.keys b.record_n k p) (full : b.record_n ≡ b.capacity_n)
    (small : b.capacity_n < 2 ^ 63) where
  -- The arrays that are to be the larger ones have a quarter of the cells.
  add_record_full-out_of_bounds : add_record_full heap b p k v ≡ fault out_of_bounds
  unfolding add_record_full move
  add_record_full-out_of_bounds = ground (arith, place.inside)

module _ {V : Type 0} (b : BufferKv V) (valid : IsValid b) (k : ℕ) (v : V)
    (new : meaning b k ≡ none) (full : b.record_n ≡ b.capacity_n) where
  -- A new key into a full valid buffer: with the memory allocated, both inserts access memory outside
  -- their arrays.
  pub insert_full-out_of_bounds :
      (heap : Heap V)
      → heap.keys_allocated ≡ true
      → heap.vals_allocated ≡ true
      → (insert heap b k v ≡ fault out_of_bounds)
        × (insert_if_not_exst heap b k v ≡ fault out_of_bounds)
  unfolding insert insert_if_not_exst add_record
  insert_full-out_of_bounds heap ka va =
      let (p, e, place, m) = search_lem b valid k writer in
      let facts : (ltb p b.record_n && (b.keys.cell p == k)) ≡ false = ground (arith, m) in
      let broken = add_record_full-out_of_bounds heap (locked b) k p v place full valid.small in
      (
        ground (arith, e, facts, valid.released, valid.fits, place.inside, broken),
        ground (arith, e, facts, valid.released, valid.fits, place.inside, broken),
      )

module _ {V : Type 0} (heap : Heap V) where
  fill-done :
      (ks : List ℕ) (vs : List V) (i : ℕ) (keys : Array ℕ) (vals : Array V)
      → length ks ≡ length vs
      → i + length ks ≤ keys.size
      → keys.size ≡ vals.size
      → keys.size < size_mod
      → (cells : Array ℕ × Array V) × (fill ks vs i keys vals ≡ done cells)
  unfolding fill
  fill-done [] vs i keys vals e room same small = ((keys, vals), refl)
  fill-done (k ∷ ks) [] i keys vals e room same small = absurd (omega arith)
  fill-done (k ∷ ks) (v ∷ vs) i keys vals e room same small =
      let (cells, filled) =
        fill-done ks vs (add_size i 1) (written keys i k) (written vals i v) (omega arith)
          (omega arith) same small in
      (cells, ground (arith, write_lem keys i k, write_lem vals i v, filled))

  -- From as many values as keys, fewer than 2^64 of them and with a capacity below 2^64, the second
  -- constructor makes a buffer of that many records. A `get`, `insert`, `insert_if_not_exst` or
  -- `remove` that is called on it meets a lock that was never initialised.
  pub create_from-lock_uninitialised :
      (ks : List ℕ) (vs : List V) (capacity : ℕ)
      → length ks ≡ length vs
      → length ks < size_mod
      → capacity < size_mod
      → (b : BufferKv V) × (create_from heap ks vs capacity ≡ done b)
        × (b.record_n ≡ length ks)
        × ((j : ℕ) → get b j ≡ fault lock_uninitialised)
        × ((next : Heap V) (j : ℕ) (w : V) → insert next b j w ≡ fault lock_uninitialised)
        × ((next : Heap V) (j : ℕ) (w : V)
            → insert_if_not_exst next b j w ≡ fault lock_uninitialised)
        × ((j : ℕ) → remove b j ≡ fault lock_uninitialised)
  unfolding create_from get insert insert_if_not_exst remove
  create_from-lock_uninitialised ks vs capacity same small small' =
      let capacity_n : ℕ = if ltb capacity (length ks) then length ks else capacity in
      let (cells, filled) =
        fill-done ks vs 0 (fresh 0 capacity_n) (fresh heap.blank capacity_n) same (ground arith)
          refl (ground arith) in
      (
        record {
          record_n = length ks;
          capacity_n = capacity_n;
          keys = cells.0;
          vals = cells.1;
          lock = uninitialised;
        },
        rw filled,
        refl,
        λ j. refl,
        λ next j w. refl,
        λ next j w. refl,
        λ j. refl,
      )
