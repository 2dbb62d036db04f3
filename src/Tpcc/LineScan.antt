-- ===== src/Tpcc/LineScan.antt =====
-- benchmark/real_world/tpcc.cpp: the scan of order lines that three of the transactions make.
use sidle_baselines.Base.{ℕ, ◌+◌, ◌≤◌, ◌<◌, ◌≡◌, ap, ◌∙◌, List, [], length, take, ◌==◌, true, arith}
use sidle_baselines.Memory.{Run, done, ◌>>=◌, ◌>>◌, check}
use sidle_baselines.Bytes.{little}
use sidle_baselines.Keys.Packed.{to_str_key}
use sidle_baselines.Keys.Structs.{OlKey, ol_struct}
use sidle_baselines.Keys.OrderLine.{ol_stored_key}
use sidle_baselines.Keys.StoredRows.{stored_rows, rows_from, restored_rows, AllFit}
use sidle_baselines.Masstree.{MassTree, IsScanned, scan}
use sidle_baselines.Masstree.Scan.{scan-appends}
use sidle_baselines.Tpcc.Values.{OlVal}
use sidle_baselines.Tpcc.Store.{Store}
use sidle_baselines.Tpcc.LineRows.{lines_from, restored_rows-lines_from}

module _ {Tree : Type 0 → Type 0} {F : Type 0} (m : MassTree Tree) where
  -- `scan(k_ol_lower, n, kvs_ol)` into an empty vector, and the INVARIANT on its size
  unfoldable pub scan_lines : Store Tree F → OlKey → ℕ → Run (List (OlKey × OlVal F))
  scan_lines store k_ol_lower n = do
    found ← scan (ol_stored_key little) m store.table_order_line k_ol_lower n []
    check (found.0 == length found.1)
    done (found.1)

  module _ (scanned : IsScanned m) (store : Store Tree F) where
    -- A scan of one line or more returns, and finds no more than were asked for.
    pub scan_lines-returns :
        (k : OlKey) (n : ℕ)
        → 0 < n
        → (kvs : List (OlKey × OlVal F)) × (scan_lines store k n ≡ done kvs)
          × (length kvs ≤ n)
          × (kvs
              ≡ restored_rows
                  (ol_stored_key little)
                  (take n (rows_from (to_str_key little k) (scanned.rows store.table_order_line))))
    unfolding scan_lines
    scan_lines-returns k n some_rows =
        let (kvs, e, are, few) =
          scan-appends (ol_stored_key little) m scanned store.table_order_line k n [] some_rows in
        let same : (0 + length kvs == length kvs) ≡ true = ground arith in
        (kvs, rw (e, same), few, are)

    -- Of lines whose keys fit, in ascending order, it finds the first from the key on.
    pub scan_lines-lines_from :
        (lines : List (OlKey × OlVal F)) (k : OlKey) (n : ℕ)
        → scanned.rows store.table_order_line ≡ stored_rows (ol_stored_key little) lines
        → AllFit (ol_stored_key little) lines
        → 0 < n
        → scan_lines store k n ≡ done (take n (lines_from (to_str_key little k) lines))
    scan_lines-lines_from lines k n are fit some_rows =
        let (kvs, e, _, found) = scan_lines-returns k n some_rows in
        e
        ∙ ap done (
            found
            ∙ ap
                (λ rows.
                  restored_rows (ol_stored_key little)
                    (take n (rows_from (to_str_key little k) rows)))
                are
            ∙ restored_rows-lines_from n (to_str_key little k) lines fit)
