-- ===== src/Tpcc/Loader.antt =====
-- benchmark/real_world/tpcc_loader.h `load_masstree_kv_data`: a table is created, filled from an ordered map
-- and left to the transactions. The map is the sequence of its rows in the order in which it is gone through.
use sidle_baselines.Base.{ℕ, List, [], ◌∷◌}
use sidle_baselines.Memory.{Run, done, ◌>>=◌, ◌>>◌}
use sidle_baselines.Bytes.{ByteOrder}
use sidle_baselines.Keys.Packed.{KeyStruct}
use sidle_baselines.Masstree.{MassTree, insert}
use sidle_baselines.Helper.Cores.{invariant}

module _ {Tree : Type 0 → Type 0} (m : MassTree Tree) (order : ByteOrder) {K V : Type 0}
    ⦃s : KeyStruct K⦄ where
  -- the loop over the rows of the map
  unfoldable pub load_rows : Tree V → List (K × V) → Run (Tree V)
  load_rows table [] = done table
  load_rows table ((k, v) ∷ rows) = do
    res ← insert m order table k v
    invariant (res.0)
    load_rows (res.1) rows

  -- `created` is the tree that the constructor makes, `load` what the function of that name leaves in the map
  unfoldable pub load_masstree_kv_data : Tree V → (ℕ → Run (List (K × V))) → ℕ → Run (Tree V)
  load_masstree_kv_data created load seed = do kvmap ← load seed; load_rows created kvmap
