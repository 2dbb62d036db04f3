-- ===== src/Tpcc/Worker.antt =====
-- benchmark/real_world/tpcc.cpp `run_worker`: the loop of a worker thread, from `running` on. What its clocks
-- and counters measure is left out, and so is what other workers do between its rounds.
use sidle_baselines.Base.{ℕ, zero, suc, ◌+◌, ◌-◌, ◌%◌, List}
use sidle_baselines.Memory.{Run, done, ◌>>=◌}
use sidle_baselines.Keys.Structs.{CKey}
use sidle_baselines.Random.Draws.{random_number, int_mod}
use sidle_baselines.Masstree.{MassTree}
use sidle_baselines.Tpcc.Values.{FloatOps}
use sidle_baselines.Tpcc.Store.{Store, Unassigned}
use sidle_baselines.Tpcc.NewOrderDraws.{Settings}
use sidle_baselines.Tpcc.NewOrder.{txn_new_order}
use sidle_baselines.Tpcc.Payment.{txn_payment}
use sidle_baselines.Tpcc.Delivery.{txn_delivery}
use sidle_baselines.Tpcc.OrderStatus.{txn_order_status}
use sidle_baselines.Tpcc.StockLevel.{txn_stock_level}
use sidle_baselines.Tpcc.Warehouses.{WarehouseRange}
use sidle_baselines.Tpcc.Mix.{
  Ratio, Transaction, new_order, payment, delivery, order_status, stock_level, choose,
}

module _ {Tree : Type 0 → Type 0} {F : Type 0} (m : MassTree Tree) (float : FloatOps F)
    (blank : Unassigned F) (print_data : CKey → ℕ → ℕ → F → List ℕ → List ℕ) (set : Settings)
    (fuel : ℕ) where
  -- the chosen transaction, with the seed of the worker's generator
  unfoldable pub run_transaction : Transaction → ℕ → Store Tree F → ℕ → Run (Store Tree F × ℕ)
  run_transaction new_order w store seed = do
    r ← txn_new_order m float blank set fuel w store seed
    done (r.0.1, r.1)
  run_transaction payment w store seed = txn_payment m float blank print_data set fuel w store seed
  run_transaction delivery w store seed = txn_delivery m float blank set w store seed
  run_transaction order_status w store seed = do
    r ← txn_order_status m set w store seed
    done (store, r.1)
  run_transaction stock_level w store seed = do
    r ← txn_stock_level m blank w set store seed
    done (store, r.1)

  module _ (ratio : Ratio) (range : WarehouseRange) where
    -- a round of the loop: the transaction and the warehouse are drawn
    unfoldable pub run_round : Store Tree F → ℕ → Run (Store Tree F × ℕ)
    unfolding run_transaction
    run_round store seed = do
      d ← random_number 1 100 seed
      w ← random_number range.w_id_start ((range.w_id_end + int_mod - 1) % int_mod) d.1
      run_transaction (choose ratio d.0) w.0 store w.1

    -- `while (running)`, for as many rounds as pass before the main thread stops it
    unfoldable pub run_worker : ℕ → Store Tree F → ℕ → Run (Store Tree F × ℕ)
    unfolding run_round
    run_worker zero store seed = done (store, seed)
    run_worker (suc rounds) store seed = do r ← run_round store seed; run_worker rounds r.0 r.1
