-- ===== src/Indexes/Art.antt =====
-- src/kv/art_wrapper.h: `ARTKV`. The vendored ART is a parameter.
use sidle_baselines.Base.{
  ℕ, zero, ◌≡◌, ◌≢◌, refl, Bool, true, false, Option, none, some, List, ℤ, pos, negsuc, length,
  take, leb, if◌then◌else◌, arith,
}
use sidle_baselines.Memory.{Run, done, fault, out_of_bounds, ◌>>=◌}
use sidle_baselines.Keys.Stored.{StoredKey}

-- The calls of art.h. A tree holds keys, and no values: a get returns a pointer to the key that is stored.
pub record ArtLib (Tree : Type 0) : Type 0 where
  pub adaptive_radix_tree_put : Tree → List ℕ → ℤ × Tree
  -- what the pointer points to; none is nullptr
  pub adaptive_radix_tree_get : Tree → List ℕ → Option (List ℕ)

-- A tree is a set of byte strings. A put returns 0, or 1 where the string was there.
pub record IsKeySet {Tree : Type 0} (lib : ArtLib Tree) : Type 0 where
  pub put_ret : (t : Tree) (s : List ℕ) → (n : ℕ) × ((lib.adaptive_radix_tree_put t s).0 ≡ pos n)
  pub get_put_same :
      (t : Tree) (s : List ℕ)
      → lib.adaptive_radix_tree_get (lib.adaptive_radix_tree_put t s).1 s ≡ some s
  pub get_put_other :
      (t : Tree) (s s' : List ℕ)
      → s ≢ s'
      → lib.adaptive_radix_tree_get (lib.adaptive_radix_tree_put t s).1 s'
        ≡ lib.adaptive_radix_tree_get t s'

-- `ret >= 0`
abbrev pub is_nonnegative : ℤ → Bool
is_nonnegative (pos n) = true
is_nonnegative (negsuc n) = false

module _ {Tree : Type 0} (lib : ArtLib Tree) {K V : Type 0} (stored_key : StoredKey K) where
  -- `*((V *)value)`, for a V of `val_size` bytes: it reads past the end of fewer bytes
  abbrev pub read_value : ℕ → (List ℕ → V) → List ℕ → Run V
  read_value val_size as_value bytes =
      if leb val_size (length bytes)
      then done (as_value (take val_size bytes))
      else fault out_of_bounds

  -- `get(k, v)`, where `as_value` is what `val_size` bytes are when they are read as a value: the value,
  -- where the call returns true; otherwise v stays as it was
  unfoldable pub get : ℕ → (List ℕ → V) → Tree → K → Run (Option V)
  get val_size as_value tree k = elim (lib.adaptive_radix_tree_get tree (stored_key.stored k)) [
    | none ↦ done none
    | some value ↦ read_value val_size as_value value >>= λ v. done (some v)
  ]

  unfoldable pub insert : Tree → K → V → Bool × Tree
  insert tree k v =
      let put = lib.adaptive_radix_tree_put tree (stored_key.stored k) in
      (is_nonnegative put.0, put.1)

-- `remove` returns false, and removes nothing.
abbrev pub remove : {Tree K : Type 0} → Tree → K → Bool × Tree
remove tree k = (false, tree)

module _ {Tree K V : Type 0} where
  -- `lower_bound` returns false, `scan` and `range_scan` zero, and nothing is changed.
  abbrev pub lower_bound : Tree → K → V → Bool × K × V
  lower_bound tree k v = (false, k, v)

  abbrev pub scan : Tree → K → ℕ → List (K × V) → ℕ × List (K × V)
  scan tree k_start n result = (zero, result)

  abbrev pub range_scan : Tree → K → K → List (K × V) → ℕ × List (K × V)
  range_scan tree k_start k_end result = (zero, result)

module _ {Tree : Type 0} (lib : ArtLib Tree) (set : IsKeySet lib) {K V : Type 0}
    (stored_key : StoredKey K) (val_size : ℕ) (as_value : List ℕ → V) where
  -- On a tree that is a set, `ARTKV::insert` returns true. In the tree that it leaves, `get` at the key
  -- reads the first bytes of the key itself as the value, whichever value was inserted, and reads past the
  -- end of the key where a value has more bytes than a key; at every key of other bytes it finds what it
  -- found before.
  pub insert-reads_key :
      (t : Tree) (k : K) (v : V)
      → (t' : Tree) × (insert lib stored_key t k v ≡ (true, t'))
        × (get lib stored_key val_size as_value t' k ≡ (
            if leb val_size (length (stored_key.stored k))
            then done (some (as_value (take val_size (stored_key.stored k))))
            else fault out_of_bounds))
        × ((j : K)
            → stored_key.stored k ≢ stored_key.stored j
            → get lib stored_key val_size as_value t' j ≡ get lib stored_key val_size as_value t j)
  unfolding insert get
  insert-reads_key t k v =
      let at = stored_key.stored k in
      let (n, ret) = set.put_ret t at in
      (
        (lib.adaptive_radix_tree_put t at).1,
        rw ret refl,
        rw (get, set.get_put_same t at) (ground arith),
        λ j apart. rw (get, set.get_put_other t at (stored_key.stored j) apart) refl,
      )
