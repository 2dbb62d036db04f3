-- ===== src/Masstree/Wrapper.antt =====
-- src/kv/masstree.h: the member functions of `MasstreeKV`. A value is stored whole; a key in the form
-- that its `to_str_key` gives it. `register_thread`, `worker_enter`, `worker_exit`, `start_bg` and
-- `terminate_bg` are empty.
use sidle_baselines.Base.{ℕ, Bool, true, false, Option, List, [], ◌∷◌, ◌++◌, length, drop, leb}
use sidle_baselines.Memory.{Run, done, fault, exits, assert_failed, ◌>>=◌, ◌>>◌, check}
use sidle_baselines.Keys.Stored.{StoredKey}
use sidle_baselines.Bytes.{ByteOrder}
use sidle_baselines.Keys.Packed.{KeyStruct, to_str_key}
use sidle_baselines.Masstree.Tree.{
  MassTree, ReplaceResult, inserted, updated, other, JsonCell, key_string, val_string,
}

abbrev pub is_replaced : ReplaceResult → Bool
is_replaced inserted = true
is_replaced updated = true
is_replaced other = false

module _ {Tree : Type 0 → Type 0} (m : MassTree Tree) (order : ByteOrder) {K V : Type 0}
    ⦃s : KeyStruct K⦄ where
  -- `get(k, v)`: the value, where the call returns true; otherwise v stays as it was
  unfoldable pub get : Tree V → K → Option V
  get tree k = m.run_get1 tree (to_str_key order k)

  unfoldable pub insert : Tree V → K → V → Run (Bool × Tree V)
  insert tree k v = do
    let res = m.run_replace tree (to_str_key order k) v
    check (is_replaced (res.0))
    done (is_replaced (res.0), res.1)

  unfoldable pub remove : Tree V → K → Bool × Tree V
  remove tree k = (true, m.run_remove tree (to_str_key order k))

  -- both end the process
  abbrev pub lower_bound : Tree V → K → Run Bool
  lower_bound tree k = fault exits

  abbrev pub range_scan : Tree V → K → K → Run ℕ
  range_scan tree k_start k_end = fault exits

module _ {K : Type 0} (stored_key : StoredKey K) {V : Type 0} where
  -- the loop of `scan` over the array from its third element on, two by two: `as_s()` of what is no
  -- string, or is not there, fails an assertion. The loop's index is an int, which holds for arrays of fewer
  -- than 2^31 elements.
  unfoldable pub scan_cells : List (JsonCell V) → List (K × V) → Run (List (K × V))
  scan_cells [] result = done result
  scan_cells (key_string s ∷ val_string v ∷ cells) result =
      scan_cells cells (result ++ (stored_key.restored s, v) ∷ [])
  scan_cells cells result = fault assert_failed

  -- `scan`: how many rows the result has, and the result, which is not cleared before
  unfoldable pub scan :
      {Tree : Type 0 → Type 0}
      → MassTree Tree
      → Tree V
      → K
      → ℕ
      → List (K × V)
      → Run (ℕ × List (K × V))
  unfolding scan_cells
  scan m tree k_start n result = do
    req ← m.run_scan tree (stored_key.stored k_start) n
    check (leb 2 (length req))
    result' ← scan_cells (drop 2 req) result
    done (length result', result')
