-- ===== src/Keys/StoredRows.antt =====
-- Rows as the vendored indexes keep them, under the bytes of their keys, and as the wrappers of src/kv
-- return them from a scan.
use Prim.Native.Nat.{Ordering}
use sidle_baselines.Base.{ℕ, zero, suc, ◌≤◌, ◌≡◌, refl, ap, List, [], ◌∷◌, length, take, arith}
use sidle_baselines.Bytes.{memcmp}
use sidle_baselines.Keys.Stored.{StoredKey}

-- The rows whose keys are not below s, of rows in ascending order.
unfoldable pub rows_from : {V : Type 0} → List ℕ → List (List ℕ × V) → List (List ℕ × V)
rows_from s [] = []
rows_from s ((s', v) ∷ rows) = elim (memcmp s' s) [
  | Ordering.lt ↦ rows_from s rows
  | Ordering.eq ↦ (s', v) ∷ rows
  | Ordering.gt ↦ (s', v) ∷ rows
]

module _ {V K : Type 0} (key : StoredKey K) where
  -- the rows with their keys restored
  abbrev pub restored_rows : List (List ℕ × V) → List (K × V)
  restored_rows [] = []
  restored_rows ((s, v) ∷ rows) = (key.restored s, v) ∷ restored_rows rows

  pub length-restored_rows : (rows : List (List ℕ × V)) → length (restored_rows rows) ≡ length rows
  length-restored_rows [] = refl
  length-restored_rows ((s, v) ∷ rows) = ap suc (length-restored_rows rows)

module _ {V K : Type 0} (key : StoredKey K) where
  -- rows as the wrappers store them
  abbrev pub stored_rows : List (K × V) → List (List ℕ × V)
  stored_rows [] = []
  stored_rows ((k, v) ∷ rows) = (key.stored k, v) ∷ stored_rows rows

  abbrev pub AllFit : List (K × V) → Type 0
  AllFit [] = Unit
  AllFit ((k, v) ∷ rows) = key.Fits k × AllFit rows

  -- Rows whose keys the type can hold are restored as they were stored.
  pub restored-stored_rows :
      (rows : List (K × V)) → AllFit rows → restored_rows key (stored_rows rows) ≡ rows
  restored-stored_rows [] fit = refl
  restored-stored_rows ((k, v) ∷ rows) (fits, rest) =
      rw (key.restored-stored k fits, restored-stored_rows rows rest) refl

pub length-take_le {ℓ} : {A : Type ℓ} (n : ℕ) (xs : List A) → length (take n xs) ≤ n
length-take_le zero xs = omega arith
length-take_le (suc n) [] = omega arith
length-take_le (suc n) (x ∷ xs) = omega (arith, length-take_le n xs)
