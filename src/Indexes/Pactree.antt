-- ===== src/Indexes/Pactree.antt =====
-- src/kv/pactree_wrapper.h: `PACTreeKV`. The vendored PACTree is a parameter.
use sidle_baselines.Base.{ℕ, zero, ◌≡◌, ◌≢◌, refl, ◌∙◌, Bool, true, false, Option, none, some, List}
use sidle_baselines.Keys.IntKey.{Key}
use sidle_baselines.Indexes.Value.{Value}

-- The calls of pactree.h. A lookup of a key that is not there returns a variable that was never set.
pub record PactreeLib (Tree : Type 0) : Type 0 where
  pub register_thread : Tree → Tree
  pub unregister_thread : Tree → Tree
  pub insert : Tree → ℕ → ℕ → Bool × Tree
  pub lookup : Tree → ℕ → ℕ
  pub remove : Tree → ℕ → Tree

-- A tree is a map of numbers. An insert at a key that is there does nothing.
pub record IsMap {Tree : Type 0} (lib : PactreeLib Tree) : Type 0 where
  pub find : Tree → ℕ → Option ℕ
  pub lookup_found : (t : Tree) (k v : ℕ) → find t k ≡ some v → lib.lookup t k ≡ v
  pub insert_new : (t : Tree) (k v : ℕ) → find t k ≡ none → find (lib.insert t k v).1 k ≡ some v
  pub insert_old : (t : Tree) (k v u : ℕ) → find t k ≡ some u → find (lib.insert t k v).1 k ≡ some u
  pub insert_other : (t : Tree) (k v j : ℕ) → k ≢ j → find (lib.insert t k v).1 j ≡ find t j
  pub remove_same : (t : Tree) (k : ℕ) → find (lib.remove t k) k ≡ none
  pub remove_other : (t : Tree) (k j : ℕ) → k ≢ j → find (lib.remove t k) j ≡ find t j

module _ {Tree : Type 0} (lib : PactreeLib Tree) where
  -- on the tree that `new pactree(1, cxl_percentage)` makes
  unfoldable pub create : Tree → Tree
  create pt = lib.register_thread pt

  -- what is deleted
  unfoldable pub destroy : Tree → Tree
  destroy pt = lib.unregister_thread pt

  unfoldable pub register_thread : Tree → Tree
  register_thread pt = lib.register_thread pt

  -- the result, and v
  unfoldable pub get : Tree → Key → Value → Bool × Value
  get pt k v = (true, record v { val = lib.lookup pt k.key })

  unfoldable pub insert : Tree → Key → Value → Bool × Tree
  insert pt k v = (true, (lib.insert pt k.key v.val).1)

  unfoldable pub remove : Tree → Key → Bool × Tree
  remove pt k = (true, lib.remove pt k.key)

module _ {Tree K V : Type 0} where
  -- `lower_bound` returns false, `scan` and `range_scan` zero, and nothing is changed.
  abbrev pub lower_bound : Tree → K → V → Bool × K × V
  lower_bound pt k v = (false, k, v)

  abbrev pub scan : Tree → K → ℕ → List (K × V) → ℕ × List (K × V)
  scan pt k_start n result = (zero, result)

  abbrev pub range_scan : Tree → K → K → List (K × V) → ℕ × List (K × V)
  range_scan pt k_start k_end result = (zero, result)

-- what is there, or else v
abbrev pub kept : Option ℕ → ℕ → ℕ
kept none v = v
kept (some u) v = u

module _ {Tree : Type 0} (lib : PactreeLib Tree) (map : IsMap lib) where
  kept-found :
      (t : Tree) (k v : ℕ) (o : Option ℕ)
      → map.find t k ≡ o
      → lib.lookup (lib.insert t k v).1 k ≡ kept o v
  kept-found t k v none e = map.lookup_found (lib.insert t k v).1 k v (map.insert_new t k v e)
  kept-found t k v (some u) e = map.lookup_found (lib.insert t k v).1 k u (map.insert_old t k v u e)

  -- On a tree that is a map, `PACTreeKV::insert` returns true. In the tree that it leaves, `get` reads at
  -- the key the value that was there before, where there was one, and otherwise the one inserted; at
  -- every other key that is in the map it reads what is there.
  pub insert-keeps :
      (t : Tree) (k : Key) (v w : Value)
      → (t' : Tree) × (insert lib t k v ≡ (true, t'))
        × (get lib t' k w ≡ (true, record w { val = kept (map.find t k.key) v.val }))
        × ((j : Key) (u : ℕ)
            → k.key ≢ j.key
            → map.find t j.key ≡ some u
            → get lib t' j w ≡ (true, record w { val = u }))
  unfolding insert get
  insert-keeps t k v w = (
    (lib.insert t k.key v.val).1,
    refl,
    rw (kept-found t k.key v.val (map.find t k.key) refl) refl,
    λ j u apart e.
        rw
          (map.lookup_found (lib.insert t k.key v.val).1 j.key u
            (map.insert_other t k.key v.val j.key apart ∙ e))
          refl,
  )

  -- On a tree that is a map, `PACTreeKV::remove` returns true, and what it leaves has nothing at the key.
  -- There `get` returns true all the same, and v gets a value. At every other key that is in the map `get` reads
  -- what is there.
  pub remove-finds :
      (t : Tree) (k : Key) (w : Value)
      → (t' : Tree) × (remove lib t k ≡ (true, t'))
        × (map.find t' k.key ≡ none)
        × ((get lib t' k w).0 ≡ true)
        × ((j : Key) (u : ℕ)
            → k.key ≢ j.key
            → map.find t j.key ≡ some u
            → get lib t' j w ≡ (true, record w { val = u }))
  unfolding remove get
  remove-finds t k w = (
    lib.remove t k.key,
    refl,
    map.remove_same t k.key,
    refl,
    λ j u apart e.
        rw
          (map.lookup_found (lib.remove t k.key) j.key u (map.remove_other t k.key j.key apart ∙ e))
          refl,
  )
