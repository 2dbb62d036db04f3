-- ===== src/Masstree/Scan.antt =====
-- src/kv/masstree.h: `scan`, and how it compares with that of src/kv/wormhole.h.
use sidle_baselines.Base.{
  ℕ, ◌+◌, ◌≤◌, ◌<◌, ◌≡◌, refl, sym, ap, ◌∙◌, List, [], ◌∷◌, ◌++◌, length, length-append, take, leb,
  true, arith,
}
use mathlib.Core.List.{append_assoc, append-nil}
use sidle_baselines.Memory.{done}
use sidle_baselines.Keys.Stored.{StoredKey}
use sidle_baselines.Keys.StoredRows.{rows_from, restored_rows, length-restored_rows, length-take_le}
use sidle_baselines.Masstree.Tree.{MassTree, IsScanned, JsonCell, number, row_cells}
use sidle_baselines.Masstree.Wrapper.{scan_cells, scan}
use sidle_baselines.Wormhole.Library.{WormholeLib, IsIterator}
use sidle_baselines.Wormhole.Wrapper.{WormholeKv}
use sidle_baselines.Wormhole.WrapperMap.{HasEntered}
use sidle_baselines.Wormhole.Scan.{scan-take}
use sidle_baselines.Wormhole.Wrapper

two_cells :
    {V : Type 0} (a b : JsonCell V) (cells : List (JsonCell V))
    → leb 2 (length (a ∷ b ∷ cells)) ≡ true
two_cells a b cells = ground arith

module _ {K V : Type 0} (key : StoredKey K) where
  scan_cells-rows :
      (rows : List (List ℕ × V)) (result : List (K × V))
      → scan_cells key (row_cells rows) result ≡ done (result ++ restored_rows key rows)
  unfolding scan_cells
  scan_cells-rows [] result = rw append-nil
  scan_cells-rows ((s, v) ∷ rows) result =
      scan_cells-rows rows (result ++ (key.restored s, v) ∷ [])
      ∙ ap done (append_assoc result ((key.restored s, v) ∷ []) (restored_rows key rows))

  module _ {Tree : Type 0 → Type 0} (m : MassTree Tree) (scanned : IsScanned m) where
    -- On a tree that is scanned in order, a scan of n rows, where n is not zero, puts behind what the
    -- result has already the first n rows from the key on, or those that there are, with their keys
    -- restored. The count that it returns is that of the whole result, the rows that were there before included.
    pub scan-appends :
        (t : Tree V) (k_start : K) (n : ℕ) (result : List (K × V))
        → 0 < n
        → (rows : List (K × V)) × (scan key m t k_start n result
            ≡ done (length result + length rows, result ++ rows))
          × (rows ≡ restored_rows key (take n (rows_from (key.stored k_start) (scanned.rows t))))
          × (length rows ≤ n)
    unfolding scan
    scan-appends t k_start n result some_rows =
        let found = take n (rows_from (key.stored k_start) (scanned.rows t)) in
        let rows = restored_rows key found in
        (
          rows,
          rw (
            scanned.scan_rows t (key.stored k_start) n some_rows,
            two_cells (number 0) (number 0) (row_cells found),
            scan_cells-rows found result,
            length-append result rows,
          ),
          refl,
          omega (
            arith,
            length-restored_rows key found,
            length-take_le n (rows_from (key.stored k_start) (scanned.rows t)),
          ),
        )

    -- A Masstree that is scanned in order and a Wormhole with the same rows give the same rows and the
    -- same count, where the result of `MasstreeKV::scan` is empty before, one row or more is asked for, and
    -- the worker of the Wormhole has entered.
    pub scan-wormhole :
        {Map : Type 0 → Type 0} {Ref : Type 0} {Iter : Type 0 → Type 0}
        (lib : WormholeLib Map Ref Iter) (iterator : IsIterator lib) (kv : WormholeKv Map Ref V)
        (w : ℕ) (r : Ref) (t : Tree V) (k_start : K) (n : ℕ)
        → HasEntered kv w r
        → scanned.rows t ≡ iterator.rows kv.wh_ptr
        → 0 < n
        → (count : ℕ) × (rows : List (K × V)) × (scan key m t k_start n [] ≡ done (count, rows))
          × (Wrapper.scan lib key kv k_start n w ≡ done (count, rows, kv))
    scan-wormhole lib iterator kv w r t k_start n entered same some_rows =
        let (rows, ran, are, few) = scan-appends t k_start n [] some_rows in
        let count : 0 + length rows ≡ length rows = omega arith in
        let as_many : restored_rows key
              (take n (rows_from (key.stored k_start) (iterator.rows kv.wh_ptr)))
            ≡ rows =
          ap (λ all. restored_rows key (take n (rows_from (key.stored k_start) all))) (sym same)
          ∙ sym are in
        (
          length rows,
          rows,
          ran ∙ ap (λ c. done (c, rows)) count,
          (scan-take lib iterator key kv k_start n w r entered).0
              ∙ ap (λ xs. done (length xs, xs, kv)) as_many,
        )
