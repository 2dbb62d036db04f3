-- ===== src/Tpcc/Emplace.antt =====
-- benchmark/real_world/tpcc_loader.h: a map that is filled in the order of its keys.
use sidle_baselines.Base.{◌≡◌, refl, inl, inr, true, false, List, [], ◌∷◌, ◌++◌, arith}
use sidle_baselines.Bytes.{little}
use sidle_baselines.Keys.Packed.{KeyStruct, less}
use sidle_baselines.Keys.PackedOrder.{Fits}
use sidle_baselines.Tpcc.LoadOrders.{emplace}
use sidle_baselines.Tpcc.Loaded.{RowsFit, IsBelow, IsAscending, IsRow}

module _ {K : Type 0} ⦃s : KeyStruct K⦄ where
  -- the key is greater than each key of the rows
  abbrev pub IsAbove : {V : Type 0} → List (K × V) → K → Type 0
  IsAbove [] k = Unit
  IsAbove ((k', v) ∷ rows) k = (less little k' k ≡ true) × IsAbove rows k

  less_asym : (a b : K) → less little a b ≡ true → less little b a ≡ false
  unfolding less
  less_asym a b below = ground (arith, below)

module _ {K V : Type 0} ⦃s : KeyStruct K⦄ (k : K) (v : V) where
  pub emplace_last : (rows : List (K × V)) → IsAbove rows k → emplace k v rows ≡ rows ++ (k, v) ∷ []
  unfolding emplace
  emplace_last [] above = refl
  emplace_last ((k', v') ∷ rows) above =
      rw (less_asym k' k (above.0), above.0, emplace_last rows (above.1)) refl

  pub last-IsRow : (rows : List (K × V)) → IsRow k v (rows ++ (k, v) ∷ [])
  last-IsRow [] = inl (refl, refl)
  last-IsRow ((k', v') ∷ rows) = inr (last-IsRow rows)

  pub IsRow-last :
      (rows : List (K × V)) (j : K) (x : V) → IsRow j x rows → IsRow j x (rows ++ (k, v) ∷ [])
  IsRow-last [] j x row = absurd row
  IsRow-last ((k', v') ∷ rows) j x (inl here) = inl here
  IsRow-last ((k', v') ∷ rows) j x (inr there) = inr (IsRow-last rows j x there)

  pub RowsFit-last :
      (rows : List (K × V)) → RowsFit rows → Fits (s.layout k) → RowsFit (rows ++ (k, v) ∷ [])
  RowsFit-last [] fit fits = (fits, tt)
  RowsFit-last ((k', v') ∷ rows) fit fits = (fit.0, RowsFit-last rows (fit.1) fits)

  pub IsAbove-last :
      (rows : List (K × V)) (j : K)
      → IsAbove rows j
      → less little k j ≡ true
      → IsAbove (rows ++ (k, v) ∷ []) j
  IsAbove-last [] j above below = (below, tt)
  IsAbove-last ((k', v') ∷ rows) j above below = (above.0, IsAbove-last rows j (above.1) below)

  IsBelow-last :
      (rows : List (K × V)) (j : K)
      → IsBelow j rows
      → less little j k ≡ true
      → IsBelow j (rows ++ (k, v) ∷ [])
  IsBelow-last [] j below above = (above, tt)
  IsBelow-last ((k', v') ∷ rows) j below above = (below.0, IsBelow-last rows j (below.1) above)

  pub IsAscending-last :
      (rows : List (K × V)) → IsAscending rows → IsAbove rows k → IsAscending (rows ++ (k, v) ∷ [])
  IsAscending-last [] up above = (tt, tt)
  IsAscending-last ((k', v') ∷ rows) up above =
      (IsBelow-last rows k' (up.0) (above.0), IsAscending-last rows (up.1) (above.1))
