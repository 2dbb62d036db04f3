-- ===== src/Tpcc/LineRows.antt =====
-- The rows of the order lines as lists: those from a key on, and rows of different keys.
use Prim.Native.Nat.{Ordering}
use sidle_baselines.Base.{ℕ, zero, suc, ◌≡◌, ◌≢◌, refl, ap, ◌∙◌, List, [], ◌∷◌, take, arith}
use sidle_baselines.Bytes.{little, memcmp}
use sidle_baselines.Keys.Packed.{to_str_key}
use sidle_baselines.Keys.Structs.{OlKey, ol_struct}
use sidle_baselines.Keys.OrderLine.{ol_stored_key}
use sidle_baselines.Keys.StoredRows.{
  rows_from, restored_rows, stored_rows, AllFit, restored-stored_rows,
}

-- The key has other bytes than that of each row.
abbrev pub IsApart : {V : Type 0} → OlKey → List (OlKey × V) → Type 0
IsApart j [] = Unit
IsApart j ((k, v) ∷ kvs) = (to_str_key little k ≢ to_str_key little j) × IsApart j kvs

-- No two rows have keys of the same bytes.
abbrev pub AreDistinct : {V : Type 0} → List (OlKey × V) → Type 0
AreDistinct [] = Unit
AreDistinct ((k, v) ∷ kvs) = IsApart k kvs × AreDistinct kvs

-- the rows whose keys are not below s in the order of the bytes, of rows in ascending order
abbrev pub lines_from : {V : Type 0} → List ℕ → List (OlKey × V) → List (OlKey × V)
lines_from s [] = []
lines_from s ((k, v) ∷ kvs) = elim (memcmp (to_str_key little k) s) [
  | Ordering.lt ↦ lines_from s kvs
  | Ordering.eq ↦ (k, v) ∷ kvs
  | Ordering.gt ↦ (k, v) ∷ kvs
]

module _ {V : Type 0} where
  rows_from-lines_from :
      (s : List ℕ) (kvs : List (OlKey × V))
      → rows_from s (stored_rows (ol_stored_key little) kvs)
        ≡ stored_rows (ol_stored_key little) (lines_from s kvs)
  unfolding rows_from
  rows_from-lines_from s [] = refl
  rows_from-lines_from s ((k, v) ∷ kvs) = ground (arith, rows_from-lines_from s kvs)

  take-stored_rows :
      (n : ℕ) (kvs : List (OlKey × V))
      → take n (stored_rows (ol_stored_key little) kvs)
        ≡ stored_rows (ol_stored_key little) (take n kvs)
  take-stored_rows zero kvs = refl
  take-stored_rows (suc n) [] = refl
  take-stored_rows (suc n) ((k, v) ∷ kvs) =
      ap (λ rows. (to_str_key little k, v) ∷ rows) (take-stored_rows n kvs)

  pub IsApart-take :
      (j : OlKey) (n : ℕ) (kvs : List (OlKey × V)) → IsApart j kvs → IsApart j (take n kvs)
  IsApart-take j zero kvs h = tt
  IsApart-take j (suc n) [] h = tt
  IsApart-take j (suc n) (kv ∷ kvs) h = (h.0, IsApart-take j n kvs h.1)

  pub AreDistinct-take :
      (n : ℕ) (kvs : List (OlKey × V)) → AreDistinct kvs → AreDistinct (take n kvs)
  AreDistinct-take zero kvs h = tt
  AreDistinct-take (suc n) [] h = tt
  AreDistinct-take (suc n) ((k, v) ∷ kvs) h = (IsApart-take k n kvs h.0, AreDistinct-take n kvs h.1)

  pub AreDistinct-lines_from :
      (s : List ℕ) (kvs : List (OlKey × V)) → AreDistinct kvs → AreDistinct (lines_from s kvs)
  AreDistinct-lines_from s [] h = tt
  AreDistinct-lines_from s ((k, v) ∷ kvs) h =
      elim (memcmp (to_str_key little k) s)
        as (λ o. AreDistinct (elim o [
          | Ordering.lt ↦ lines_from s kvs
          | Ordering.eq ↦ (k, v) ∷ kvs
          | Ordering.gt ↦ (k, v) ∷ kvs
        ])) [ Ordering.lt ↦ AreDistinct-lines_from s kvs h.1 | Ordering.eq ↦ h | Ordering.gt ↦ h ]

  AllFit-take :
      (n : ℕ) (kvs : List (OlKey × V))
      → AllFit (ol_stored_key little) kvs
      → AllFit (ol_stored_key little) (take n kvs)
  AllFit-take zero kvs h = tt
  AllFit-take (suc n) [] h = tt
  AllFit-take (suc n) ((k, v) ∷ kvs) h = (h.0, AllFit-take n kvs h.1)

  AllFit-lines_from :
      (s : List ℕ) (kvs : List (OlKey × V))
      → AllFit (ol_stored_key little) kvs
      → AllFit (ol_stored_key little) (lines_from s kvs)
  AllFit-lines_from s [] h = tt
  AllFit-lines_from s ((k, v) ∷ kvs) h =
      elim (memcmp (to_str_key little k) s)
        as (λ o. AllFit (ol_stored_key little) (elim o [
          | Ordering.lt ↦ lines_from s kvs
          | Ordering.eq ↦ (k, v) ∷ kvs
          | Ordering.gt ↦ (k, v) ∷ kvs
        ])) [ Ordering.lt ↦ AllFit-lines_from s kvs h.1 | Ordering.eq ↦ h | Ordering.gt ↦ h ]

  -- What a scan finds in the stored rows is, with the keys restored, the first of the rows from the key on.
  pub restored_rows-lines_from :
      (n : ℕ) (s : List ℕ) (kvs : List (OlKey × V))
      → AllFit (ol_stored_key little) kvs
      → restored_rows
          (ol_stored_key little)
          (take n (rows_from s (stored_rows (ol_stored_key little) kvs)))
        ≡ take n (lines_from s kvs)
  restored_rows-lines_from n s kvs fit =
      let found =
        ap (take n) (rows_from-lines_from s kvs) ∙ take-stored_rows n (lines_from s kvs) in
      ap (restored_rows (ol_stored_key little)) found
      ∙ restored-stored_rows (ol_stored_key little) (take n (lines_from s kvs))
          (AllFit-take n (lines_from s kvs) (AllFit-lines_from s kvs fit))
