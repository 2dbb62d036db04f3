-- ===== src/Examples/SortedTree.antt =====
-- A tree that is a map and is scanned in order: the list of its rows, in ascending order of their keys.
use Prim.Native.Nat.{Ordering}
use sidle_baselines.Base.{
  ℕ, ◌≡◌, ◌≢◌, refl, sym, true, false, Bool-cases, inl, inr, Option, none, some, List, [], ◌∷◌,
  take, if◌then◌else◌, arith,
}
use std.Path.{subst}
use sidle_baselines.Bytes.{memcmp}
use sidle_baselines.Bytes.Equality.{same_bytes, same_bytes_refl, same_bytes-true, same_bytes-false}
use sidle_baselines.Memory.{done}
use sidle_baselines.Keys.StoredRows.{rows_from}
use sidle_baselines.Masstree.{MassTree, IsMap, IsScanned, inserted, number, row_cells}

abbrev pub SortedTree : Type 0 → Type 0
SortedTree V = List (List ℕ × V)

module _ {V : Type 0} where
  abbrev pub find_row : List ℕ → SortedTree V → Option V
  find_row s [] = none
  find_row s ((s', v) ∷ rows) = if same_bytes s' s then some v else find_row s rows

  abbrev pub insert_row : List ℕ → V → SortedTree V → SortedTree V
  insert_row s v [] = (s, v) ∷ []
  insert_row s v ((s', v') ∷ rows) = elim (same_bytes s' s) [
    | true ↦ (s, v) ∷ rows
    | false ↦ elim (memcmp s s') [
      | Ordering.lt ↦ (s, v) ∷ (s', v') ∷ rows
      | Ordering.eq ↦ (s', v') ∷ insert_row s v rows
      | Ordering.gt ↦ (s', v') ∷ insert_row s v rows
    ]
  ]

  abbrev pub remove_row : List ℕ → SortedTree V → SortedTree V
  remove_row s [] = []
  remove_row s ((s', v) ∷ rows) = elim (same_bytes s' s) [
    | true ↦ remove_row s rows
    | false ↦ (s', v) ∷ remove_row s rows
  ]

  find_row-insert_row :
      (s : List ℕ) (v : V) (t : SortedTree V) → find_row s (insert_row s v t) ≡ some v
  find_row-insert_row s v [] = ground (arith, same_bytes_refl s)
  find_row-insert_row s v ((s', v') ∷ rows) =
      ground (arith, same_bytes_refl s, find_row-insert_row s v rows)

  find_row-insert_row_other :
      (s s' : List ℕ) (v : V) (t : SortedTree V)
      → s ≢ s'
      → find_row s' (insert_row s v t) ≡ find_row s' t
  find_row-insert_row_other s s' v [] apart = ground (arith, same_bytes-false s s' apart)
  find_row-insert_row_other s s' v ((s'', v') ∷ rows) apart = elim (Bool-cases (same_bytes s'' s)) [
    | inl same ↦
        let e = same_bytes-true s'' s same in
        let differ = same_bytes-false s s' apart in
        let differ' : same_bytes s'' s' ≡ false =
          subst (λ x. same_bytes x s' ≡ false) (sym e) differ in
        ground (arith, same, differ, differ')
    | inr other ↦
        ground
          (arith, other, same_bytes-false s s' apart, find_row-insert_row_other s s' v rows apart)
  ]

  find_row-remove_row : (s : List ℕ) (t : SortedTree V) → find_row s (remove_row s t) ≡ none
  find_row-remove_row s [] = refl
  find_row-remove_row s ((s', v) ∷ rows) = ground (arith, find_row-remove_row s rows)

  find_row-remove_row_other :
      (s s' : List ℕ) (t : SortedTree V) → s ≢ s' → find_row s' (remove_row s t) ≡ find_row s' t
  find_row-remove_row_other s s' [] apart = refl
  find_row-remove_row_other s s' ((s'', v) ∷ rows) apart = elim (Bool-cases (same_bytes s'' s)) [
    | inl same ↦
        let e = same_bytes-true s'' s same in
        let differ : same_bytes s'' s' ≡ false =
          subst (λ x. same_bytes x s' ≡ false) (sym e) (same_bytes-false s s' apart) in
        ground (arith, same, differ, find_row-remove_row_other s s' rows apart)
    | inr other ↦ ground (arith, other, find_row-remove_row_other s s' rows apart)
  ]

abbrev pub sorted_tree : MassTree SortedTree
sorted_tree = record {
  run_get1 = λ t s. find_row s t;
  run_replace = λ t s v. (inserted, insert_row s v t);
  run_remove = λ t s. remove_row s t;
  run_scan = λ t s n. done (number 0 ∷ number 0 ∷ row_cells (take n (rows_from s t)));
}

pub sorted_tree-IsMap : IsMap sorted_tree
sorted_tree-IsMap = record {
  replaced = λ t s v e. cc;
  get_replace_same = λ t s v. find_row-insert_row s v t;
  get_replace_other = λ t s s' v apart. find_row-insert_row_other s s' v t apart;
  get_remove_same = λ t s. find_row-remove_row s t;
  get_remove_other = λ t s s' apart. find_row-remove_row_other s s' t apart;
}

unfoldable pub sorted_tree-IsScanned : IsScanned sorted_tree
sorted_tree-IsScanned = record { rows = λ t. t; scan_rows = λ t s n some_rows. refl }
