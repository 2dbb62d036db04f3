-- ===== src/Tpcc/Loaded.antt =====
-- benchmark/real_world/tpcc_loader.h `load_masstree_kv_data`: what the table holds when it is loaded.
use Prim.Native.Nat.{Ordering}
use sidle_baselines.Base.{
  ℕ, ◌≡◌, ◌≢◌, refl, sym, ap, ◌∙◌, ◌⊎◌, inl, inr, true, some, none, List, [], ◌∷◌, arith,
}
use sidle_baselines.Memory.{Run, done}
use sidle_baselines.Bytes.{little}
use sidle_baselines.Keys.Packed.{KeyStruct, to_str_key, less}
use sidle_baselines.Keys.PackedOrder.{
  Fits, SameWidths, compare_fields, memcmp-to_str_key, less-compare_fields,
}
use sidle_baselines.Keys.Apart.{memcmp-apart}
use sidle_baselines.Masstree.{MassTree, IsMap, get}
use sidle_baselines.Masstree.WrapperMap.{insert-get}
use sidle_baselines.Tpcc.Loader.{load_rows, load_masstree_kv_data}

module _ {K : Type 0} ⦃s : KeyStruct K⦄ where
  -- the fields of every key are in the ranges of their types
  abbrev pub RowsFit : {V : Type 0} → List (K × V) → Type 0
  RowsFit [] = Unit
  RowsFit ((k, v) ∷ rows) = Fits (s.layout k) × RowsFit rows

  -- the key is less than each key of the rows
  abbrev pub IsBelow : {V : Type 0} → K → List (K × V) → Type 0
  IsBelow k [] = Unit
  IsBelow k ((k', v) ∷ rows) = (less little k k' ≡ true) × IsBelow k rows

  -- a `std::map` is gone through in the order of its keys, each of them once
  abbrev pub IsAscending : {V : Type 0} → List (K × V) → Type 0
  IsAscending [] = Unit
  IsAscending ((k, v) ∷ rows) = IsBelow k rows × IsAscending rows

  -- the key is none of the keys: less or greater than each
  abbrev pub IsAbsent : {V : Type 0} → K → List (K × V) → Type 0
  IsAbsent k [] = Unit
  IsAbsent k ((k', v) ∷ rows) =
      ((less little k k' ≡ true) ⊎ (less little k' k ≡ true)) × IsAbsent k rows

  abbrev pub IsRow : {V : Type 0} → K → V → List (K × V) → Type 0
  IsRow k v [] = ⊥
  IsRow k v ((k', v') ∷ rows) = ((k' ≡ k) × (v' ≡ v)) ⊎ IsRow k v rows

  below-IsAbsent : {V : Type 0} (k : K) (rows : List (K × V)) → IsBelow k rows → IsAbsent k rows
  below-IsAbsent k [] below = tt
  below-IsAbsent k ((k', v) ∷ rows) below = (inl (below.0), below-IsAbsent k rows (below.1))

-- the keys of a struct have the same fields
abbrev pub HasFields : (K : Type 0) ⦃s : KeyStruct K⦄ → Type 0
HasFields K ⦃s⦄ = (a b : K) → SameWidths (s.layout a) (s.layout b)

less-apart :
    {K : Type 0} ⦃s : KeyStruct K⦄ (a b : K)
    → HasFields K
    → Fits (s.layout a)
    → Fits (s.layout b)
    → less little a b ≡ true
    → to_str_key little a ≢ to_str_key little b
less-apart ⦃s = s⦄ a b same fits_a fits_b below =
    memcmp-apart (to_str_key little a) (to_str_key little b) (λ e.
      let tie : compare_fields (s.layout a) (s.layout b) ≡ Ordering.eq =
        sym (memcmp-to_str_key a b (same a b) fits_a fits_b) ∙ e in
      let lem = less-compare_fields a b (same a b) fits_a fits_b in ground (arith, lem, tie, below))

apart :
    {K : Type 0} ⦃s : KeyStruct K⦄ (k k' : K)
    → HasFields K
    → Fits (s.layout k)
    → Fits (s.layout k')
    → (less little k k' ≡ true) ⊎ (less little k' k ≡ true)
    → to_str_key little k' ≢ to_str_key little k
apart k k' same fits fits' (inl below) e = less-apart k k' same fits fits' below (sym e)
apart k k' same fits fits' (inr above) e = less-apart k' k same fits' fits above e

module _ {Tree : Type 0 → Type 0} (m : MassTree Tree) (map : IsMap m) {K V : Type 0}
    ⦃s : KeyStruct K⦄ (same : HasFields K) where
  load_rows-get :
      (t : Tree V) (rows : List (K × V))
      → RowsFit rows
      → IsAscending rows
      → (table : Tree V) × (load_rows m little t rows ≡ done table)
        × ((k : K) (v : V) → IsRow k v rows → get m little table k ≡ some v)
        × ((k : K) → Fits (s.layout k) → IsAbsent k rows → get m little table k ≡ get m little t k)
  unfolding load_rows
  load_rows-get t [] fit up = (t, refl, λ k v row. absurd row, λ k fits absent. refl)
  load_rows-get t ((k, v) ∷ rows) fit up =
      let (t', ok, at_k, others) = insert-get m map little t k v in
      let (table, loaded, found, kept) = load_rows-get t' rows (fit.1) (up.1) in
      let at : get m little table k ≡ some v =
        kept k (fit.0) (below-IsAbsent k rows (up.0)) ∙ at_k in
      (
        table,
        rw (ok, loaded),
        λ j x row. elim row [
          | inl here ↦ ap (get m little table) (sym (here.0)) ∙ (at ∙ ap some (here.1))
          | inr there ↦ found j x there
        ],
        λ j fits absent. kept j fits (absent.1) ∙ others j (apart j k same fits (fit.0) (absent.0)),
      )

  -- Let the tree that the constructor makes hold nothing, and let the map that the load leaves be in the order
  -- of its keys, with each field in the range of its type. Then `load_masstree_kv_data` comes to its end: no
  -- insertion fails. In the table, `get` finds at the key of a row of the map its value, and nothing at a key
  -- that is less or greater than each key of the map.
  pub load_masstree_kv_data-get :
      (created : Tree V) (load : ℕ → Run (List (K × V))) (seed : ℕ) (kvmap : List (K × V))
      → ((k : K) → get m little created k ≡ none)
      → load seed ≡ done kvmap
      → RowsFit kvmap
      → IsAscending kvmap
      → (table : Tree V) × (load_masstree_kv_data m little created load seed ≡ done table)
        × ((k : K) (v : V) → IsRow k v kvmap → get m little table k ≡ some v)
        × ((k : K) → Fits (s.layout k) → IsAbsent k kvmap → get m little table k ≡ none)
  unfolding load_masstree_kv_data
  load_masstree_kv_data-get created load seed kvmap empty filled fit up =
      let (table, loaded, found, kept) = load_rows-get created kvmap fit up in
      (table, rw (filled, loaded), found, λ k fits absent. kept k fits absent ∙ empty k)
