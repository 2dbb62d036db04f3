-- ===== src/Buffer/Scans.antt =====
-- The other operations of src/kv/buffer.h: `linear_search` against `binary_search`, `get_pos`,
-- `scan_keys`, and the first constructor.
use sidle_baselines.Base.{
  ℕ, zero, suc, ◌+◌, ◌^◌, ◌≤◌, ◌<◌, ◌≡◌, ◌≢◌, ◌⊎◌, refl, ◌∙◌, ap, Bool, true, false, none, some,
  List, [], ◌∷◌, ◌++◌, ◌&&◌, ltb, ◌==◌, arith, inl, inr, Bool-cases,
}
use mathlib.Core.List.{append_assoc, append-nil}
use native.Mathlib.Decide.{dec_lt}
use sidle_baselines.Memory.{done, fault, assert_failed, exits, fresh, Array, read_lem, add_size}
use sidle_baselines.Buffer.Defs.{BufferKv, Heap, readers, linear_loop, linear_search, binary_search}
use sidle_baselines.Buffer.Operations.{create, get_pos, scan_loop, scan_keys}
use sidle_baselines.Buffer.Search.{IsValid}
use sidle_baselines.Buffer.Refinement.{search_lem}
use sidle_baselines.Buffer.Meaning.{meaning, rows_meaning}

-- the rows of the key array from the i-th, as a list
abbrev pub key_list : Array ℕ → ℕ → ℕ → List ℕ
key_list keys zero i = []
key_list keys (suc left) i = keys.cell i ∷ key_list keys left (i + 1)

scan_loop-key_list :
    (left : ℕ) (keys : Array ℕ) (i : ℕ) (result : List ℕ)
    → i + left ≤ keys.size
    → keys.size < 2 ^ 63
    → scan_loop left keys i result ≡ done (result ++ key_list keys left i)
unfolding scan_loop
scan_loop-key_list zero keys i result h small = rw append-nil
scan_loop-key_list (suc left) keys i result h small =
    let next : add_size i 1 ≡ i + 1 = omega arith in
    rw (read_lem keys i (omega arith), next)
      (scan_loop-key_list left keys (i + 1) (result ++ keys.cell i ∷ []) (omega arith) small
        ∙ ap done (append_assoc result (keys.cell i ∷ []) (key_list keys left (i + 1))))

linear_loop-none :
    (left : ℕ) (keys : Array ℕ) (k i : ℕ)
    → i + left ≤ keys.size
    → keys.size < 2 ^ 63
    → ((j : ℕ) → j < i + left → keys.cell j ≢ k)
    → linear_loop left keys k i ≡ done none
unfolding linear_loop
linear_loop-none zero keys k i h small absent = refl
linear_loop-none (suc left) keys k i h small absent =
    let next : add_size i 1 ≡ i + 1 = omega arith in
    ground (
      arith,
      read_lem keys i,
      absent i,
      next,
      linear_loop-none left keys k (i + 1) (omega arith) small (λ j q. absent j (omega arith)),
    )

linear_loop-some :
    (left : ℕ) (keys : Array ℕ) (k i p : ℕ)
    → i + left ≤ keys.size
    → keys.size < 2 ^ 63
    → i ≤ p
    → p < i + left
    → keys.cell p ≡ k
    → ((j : ℕ) → j < p → keys.cell j ≢ k)
    → linear_loop left keys k i ≡ done (some p)
unfolding linear_loop
linear_loop-some zero keys k i p h small lo hi e first = absurd (omega arith)
linear_loop-some (suc left) keys k i p h small lo hi e first =
    let next : add_size i 1 ≡ i + 1 = omega arith in
    elim (dec_lt i p) [
      | yes before ↦ ground (
        arith,
        read_lem keys i,
        first i,
        next,
        linear_loop-some left keys k (i + 1) p (omega arith) small (omega arith) (omega arith) e
            first,
      )
      | no here ↦ let at : i ≡ p = omega arith in ground (arith, at, read_lem keys i)
    ]

module _ {V : Type 0} (b : BufferKv V) (valid : IsValid b) where
  -- On a valid buffer `scan_keys` returns true, and appends the keys of the rows in their order.
  pub scan_keys-key_list :
      (result : List ℕ) → scan_keys b result ≡ done (true, result ++ key_list b.keys b.record_n 0)
  unfolding scan_keys
  scan_keys-key_list result = rw (
      scan_loop-key_list b.record_n b.keys 0 result (omega (arith, valid.fits, valid.keys_size))
        (omega (arith, valid.keys_size, valid.small)))

  -- On a valid buffer the two searches agree on whether the key is there, and on its row if it is. If it
  -- is not, `linear_search` gives `record_n`.
  pub linear_search-binary_search :
      (k : ℕ)
      → (hit : Bool) × (p : ℕ) × (q : ℕ) × (binary_search b k ≡ done (hit, p))
        × (linear_search b k ≡ done (hit, q))
        × (hit ≡ true → p ≡ q)
        × (hit ≡ false → q ≡ b.record_n)
  unfolding linear_search
  linear_search-binary_search k =
      let (p, e, place, m) = search_lem b valid k b.lock in
      let size = valid.keys_size in
      elim (Bool-cases (ltb p b.record_n && (b.keys.cell p == k))) [
        | inl hit ↦
            let found =
              linear_loop-some b.record_n b.keys k 0 p (omega (arith, valid.fits))
                (omega (arith, valid.small)) (omega arith) (ground arith) (ground arith)
                (λ j r. ground (arith, place.below j)) in
            (true, p, p, e ∙ rw hit refl, rw found refl, λ h. refl, λ h. cc)
        | inr miss ↦
            let found =
              linear_loop-none b.record_n b.keys k 0 (omega (arith, valid.fits))
                (omega (arith, valid.small))
                (λ j r.
                  ground (arith, place.below j, place.above j, place.above p, valid.sorted p j)) in
            (false, p, b.record_n, e ∙ rw miss refl, rw found refl, λ h. cc, λ h. refl)
      ]

  -- On a valid buffer `get_pos` returns the row of a key that is there. On any other key its
  -- assertion fails.
  pub get_pos-meaning :
      (k : ℕ)
      → ((meaning b k ≡ none) × (get_pos b k ≡ fault assert_failed))
        ⊎ ((p : ℕ) × (get_pos b k ≡ done p)
            × (p < b.record_n)
            × (b.keys.cell p ≡ k)
            × (meaning b k ≡ some (b.vals.cell p)))
  unfolding get_pos
  get_pos-meaning k =
      let (p, e, place, m) = search_lem b valid k b.lock in
      elim (Bool-cases (ltb p b.record_n && (b.keys.cell p == k))) [
        | inl hit ↦
            inr (p, ground (arith, e, hit), ground arith, ground arith, ground (arith, m, hit))
        | inr miss ↦ inl (ground (arith, m, miss), ground (arith, e, miss))
      ]

-- The first constructor makes a valid buffer, whose map is empty, or ends the process where the lock
-- cannot be made.
pub create-meaning :
    {V : Type 0} (heap : Heap V)
    → (b : BufferKv V) × (create heap true ≡ done b)
      × IsValid b
      × ((j : ℕ) → meaning b j ≡ none)
      × (create heap false ≡ fault exits)
unfolding create meaning rows_meaning
create-meaning heap = (
  record {
    record_n = 0;
    capacity_n = 1024;
    keys = fresh 0 1024;
    vals = fresh heap.blank 1024;
    lock = readers 0;
  },
  refl,
  record {
    fits = omega arith;
    keys_size = refl;
    vals_size = refl;
    small = omega arith;
    sorted = λ i j p q. absurd (omega arith);
    released = refl;
  },
  λ j. refl,
  refl,
)
