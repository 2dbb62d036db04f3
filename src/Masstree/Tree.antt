-- ===== src/Masstree/Tree.antt =====
-- The vendored Masstree, as far as src/kv/masstree.h calls it: a parameter, and what is relied on of it.
use sidle_baselines.Base.{ℕ, ◌<◌, ◌≡◌, ◌≢◌, Option, none, some, List, [], ◌∷◌, take}
use sidle_baselines.Memory.{Run, done}
use sidle_baselines.Keys.StoredRows.{rows_from}

-- `result_t` of a replace
pub data ReplaceResult : Type 0 where
  inserted updated other : ReplaceResult

-- the elements of an `lcdf::Json` array: a number, or a string, which holds a key's bytes or a value's
pub data JsonCell (V : Type 0) : Type 0 where
  number : ℕ → JsonCell V
  key_string : List ℕ → JsonCell V
  val_string : V → JsonCell V

-- The calls of `query<row_type>` that the wrapper makes, on trees of values of each type. A key is a
-- string of bytes.
pub record MassTree (Tree : Type 0 → Type 0) : Type 1 where
  pub run_get1 : {V : Type 0} → Tree V → List ℕ → Option V
  pub run_replace : {V : Type 0} → Tree V → List ℕ → V → ReplaceResult × Tree V
  pub run_remove : {V : Type 0} → Tree V → List ℕ → Tree V
  -- what the array is after the call, from `array(0, 0, first_key, n)`
  pub run_scan : {V : Type 0} → Tree V → List ℕ → ℕ → Run (List (JsonCell V))

-- A tree maps byte strings to values.
pub record IsMap {Tree : Type 0 → Type 0} (m : MassTree Tree) : Type 1 where
  pub replaced : {V : Type 0} (t : Tree V) (s : List ℕ) (v : V) → (m.run_replace t s v).0 ≢ other
  pub get_replace_same :
      {V : Type 0} (t : Tree V) (s : List ℕ) (v : V)
      → m.run_get1 ((m.run_replace t s v).1) s ≡ some v
  pub get_replace_other :
      {V : Type 0} (t : Tree V) (s s' : List ℕ) (v : V)
      → s ≢ s'
      → m.run_get1 ((m.run_replace t s v).1) s' ≡ m.run_get1 t s'
  pub get_remove_same :
      {V : Type 0} (t : Tree V) (s : List ℕ) → m.run_get1 (m.run_remove t s) s ≡ none
  pub get_remove_other :
      {V : Type 0} (t : Tree V) (s s' : List ℕ)
      → s ≢ s'
      → m.run_get1 (m.run_remove t s) s' ≡ m.run_get1 t s'

-- the strings of the rows, each row two of them
abbrev pub row_cells : {V : Type 0} → List (List ℕ × V) → List (JsonCell V)
row_cells [] = []
row_cells ((s, v) ∷ rows) = key_string s ∷ val_string v ∷ row_cells rows

-- A tree has its rows in ascending order. A scan of one row or more leaves in the array its first two
-- elements and the rows from the key on, as many as were asked for.
pub record IsScanned {Tree : Type 0 → Type 0} (m : MassTree Tree) : Type 1 where
  pub rows : {V : Type 0} → Tree V → List (List ℕ × V)
  pub scan_rows :
      {V : Type 0} (t : Tree V) (s : List ℕ) (n : ℕ)
      → 0 < n
      → m.run_scan t s n ≡ done (number 0 ∷ number 0 ∷ row_cells (take n (rows_from s (rows t))))
