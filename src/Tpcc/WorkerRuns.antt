-- ===== src/Tpcc/WorkerRuns.antt =====
-- benchmark/real_world/tpcc.cpp `run_worker`: that a worker's rounds return, and when they do not.
use sidle_baselines.Base.{
  ℕ, zero, suc, ◌+◌, ◌^◌, ◌≤◌, ◌<◌, ◌≡◌, refl, sym, Option, some, List, get_elem?, arith,
}
use std.Path.{subst}
use sidle_baselines.Memory.{done, fault, division_by_zero}
use sidle_baselines.Keys.Structs.{CKey}
use sidle_baselines.Random.Bounds.{random_number_bounds, random_number-empty}
use sidle_baselines.Masstree.{MassTree, IsMap, IsScanned}
use sidle_baselines.Tpcc.Values.{FloatOps}
use sidle_baselines.Tpcc.Store.{Store, Unassigned}
use sidle_baselines.Tpcc.NewOrderDraws.{Settings}
use sidle_baselines.Tpcc.NewOrder.{txn_new_order}
use sidle_baselines.Tpcc.NewOrderInputs.{draw_new_order_bounds}
use sidle_baselines.Tpcc.PaymentKeeps.{txn_payment-KeepsOrders}
use sidle_baselines.Tpcc.Delivery.{txn_delivery}
use sidle_baselines.Tpcc.OrderStatus.{txn_order_status-returns}
use sidle_baselines.Tpcc.StockLevel.{txn_stock_level-returns}
use sidle_baselines.Tpcc.Credits.{HasGoodCredit, KeepsCredits-HasGoodCredit}
use sidle_baselines.Tpcc.Sound.{IsSound, IsSound-HasPlaces, IsSound-same}
use sidle_baselines.Tpcc.SoundNewOrder.{run_new_order-IsSound}
use sidle_baselines.Tpcc.SoundDelivery.{deliver_districts-IsSound}
use sidle_baselines.Tpcc.Warehouses.{WarehouseRange, deal_warehouses, deal_warehouses-empty}
use sidle_baselines.Tpcc.Mix.{
  Ratio, Transaction, new_order, payment, delivery, order_status, stock_level, choose,
}
use sidle_baselines.Tpcc.Worker.{run_transaction, run_round, run_worker}

-- what every transaction of a worker with the only warehouse keeps
pub record IsSoundHere {Tree : Type 0 → Type 0} {F : Type 0} (m : MassTree Tree)
    (blank : Unassigned F) (districts : ℕ) (store : Store Tree F) : Type 0 where
  pub sound : IsSound m 1 districts store
  pub good_credit : HasGoodCredit m blank store.table_customer

module _ {Tree : Type 0 → Type 0} {F : Type 0} (m : MassTree Tree) (map : IsMap m)
    (scanned : IsScanned m) (float : FloatOps F) (blank : Unassigned F)
    (print_data : CKey → ℕ → ℕ → F → List ℕ → List ℕ) (set : Settings) (one : set.warehouse_num ≡ 1)
    (some_district : 1 ≤ set.num_district_per_warehouse)
    (few_districts : set.num_district_per_warehouse < 2 ^ 8) where
  txn_new_order-IsSound :
      (store : Store Tree F)
      → IsSoundHere m blank set.num_district_per_warehouse store
      → (seed : ℕ)
      → (total : Option F) × (after : Store Tree F) × (s : ℕ) × (txn_new_order m float blank set 0 1
            store seed
          ≡ done ((total, after), s))
        × IsSoundHere m blank set.num_district_per_warehouse after
  unfolding txn_new_order
  txn_new_order-IsSound store sound seed =
      let n = set.num_district_per_warehouse in
      let (draw, s, e, d_lo, d_hi, c_lo, c_hi, _, _, _, _) =
        draw_new_order_bounds set 0 1 one some_district (omega (arith, few_districts)) seed in
      let (total, after, e', sound', customers) =
        run_new_order-IsSound m 1 n map float blank (omega arith) few_districts store sound.sound 1
          (omega arith) (omega arith) draw d_lo d_hi c_lo c_hi in
      let good = subst (HasGoodCredit m blank) (sym customers) sound.good_credit in
      (total, after, s, rw (e, e'), record { sound = sound'; good_credit = good })

  txn_delivery-IsSound :
      (store : Store Tree F)
      → IsSoundHere m blank set.num_district_per_warehouse store
      → (seed : ℕ)
      → (after : Store Tree F) × (s : ℕ) × (txn_delivery m float blank set 1 store seed
          ≡ done (after, s))
        × IsSoundHere m blank set.num_district_per_warehouse after
  unfolding txn_delivery
  txn_delivery-IsSound store sound seed =
      let n = set.num_district_per_warehouse in
      let (carrier, s, e, _, _, _) =
        random_number_bounds 1 n seed some_district (omega (arith, few_districts)) in
      let (after, e', _, sound', kept) =
        deliver_districts-IsSound m 1 n map scanned float blank (omega arith) few_districts store
          sound.sound 1 (omega arith) (omega arith) carrier in
      let good =
        KeepsCredits-HasGoodCredit m blank store.table_customer after.table_customer kept
          sound.good_credit in
      (after, s, rw (e, e'), record { sound = sound'; good_credit = good })

  run_transaction-IsSound :
      (t : Transaction) (store : Store Tree F)
      → IsSoundHere m blank set.num_district_per_warehouse store
      → (seed : ℕ)
      → (after : Store Tree F) × (s : ℕ) × (run_transaction m float blank print_data set 0 t 1 store
            seed
          ≡ done (after, s))
        × IsSoundHere m blank set.num_district_per_warehouse after
  unfolding run_transaction
  run_transaction-IsSound new_order store sound seed =
      let (total, after, s, e, sound') = txn_new_order-IsSound store sound seed in
      (after, s, rw e, sound')
  run_transaction-IsSound payment store sound seed =
      let (after, s, e, kept, good) =
        txn_payment-KeepsOrders m map float blank print_data store set 1 one sound.good_credit
          seed in
      let sound' =
        IsSound-same m 1 set.num_district_per_warehouse store after kept.pending kept.latest
          kept.new_orders kept.orders sound.sound in
      (after, s, e, record { sound = sound'; good_credit = good })
  run_transaction-IsSound delivery store sound seed = txn_delivery-IsSound store sound seed
  run_transaction-IsSound order_status store sound seed =
      let n = set.num_district_per_warehouse in
      let (kvs, s, e) =
        txn_order_status-returns m scanned set 1 store some_district few_districts
          (λ d c d_lo d_hi c_lo c_hi.
            IsSound-HasPlaces m 1 n (omega arith) few_districts store 1 d c sound.sound
              (omega arith) (omega arith) d_lo d_hi c_lo c_hi)
          seed in
      (store, s, rw e, sound)
  run_transaction-IsSound stock_level store sound seed =
      let (low, s, e) =
        txn_stock_level-returns m blank 1 store scanned set some_district
          (omega (arith, few_districts)) seed in
      (store, s, rw e, sound)

  module _ (ratio : Ratio) where
    -- the range of a worker that has the only warehouse
    abbrev pub only_warehouse : WarehouseRange
    only_warehouse = record { w_id_start = 1; w_id_end = 2 }

    run_round-IsSound :
        (store : Store Tree F)
        → IsSoundHere m blank set.num_district_per_warehouse store
        → (seed : ℕ)
        → (after : Store Tree F) × (s : ℕ) × (run_round m float blank print_data set 0 ratio
              only_warehouse store seed
            ≡ done (after, s))
          × IsSoundHere m blank set.num_district_per_warehouse after
    unfolding run_round
    run_round-IsSound store sound seed =
        let (d, s, e, _, _, _) = random_number_bounds 1 100 seed (omega arith) (omega arith) in
        let (w, t, e', lo, hi, _) = random_number_bounds 1 1 s (omega arith) (omega arith) in
        let alone : w ≡ 1 = omega arith in
        let (after, u, e'', sound') = run_transaction-IsSound (choose ratio d) store sound t in
        (after, u, rw (e, e', alone, e''), sound')

    -- On tables that are maps and are scanned in order, with one warehouse and 1 to 255 districts, where
    -- the vectors have a place for each district and customer, and a district's newest new order has an
    -- order if it has a row, and where no customer has bad credit: a worker that has the warehouse makes any
    -- number of rounds, from any seed and whatever the ratios, and each returns; afterwards all this holds
    -- again.
    pub run_worker-IsSound :
        (rounds : ℕ) (store : Store Tree F)
        → IsSoundHere m blank set.num_district_per_warehouse store
        → (seed : ℕ)
        → (after : Store Tree F) × (s : ℕ) × (run_worker m float blank print_data set 0 ratio
              only_warehouse rounds store seed
            ≡ done (after, s))
          × IsSoundHere m blank set.num_district_per_warehouse after
    unfolding run_worker
    run_worker-IsSound zero store sound seed = (store, seed, refl, sound)
    run_worker-IsSound (suc rounds) store sound seed =
        let (next, s, e, sound') = run_round-IsSound store sound seed in
        let (after, t, e', sound'') = run_worker-IsSound rounds next sound' s in
        (after, t, rw (e, e'), sound'')

-- With fewer warehouses than workers, fewer than 255 of them as the command line requires: each worker from
-- the number of the warehouses on, from any seed, ends in its first round with a remainder by zero, before
-- it has run a transaction.
pub run_worker-without_warehouse :
    {Tree : Type 0 → Type 0} {F : Type 0} (m : MassTree Tree) (float : FloatOps F)
    (blank : Unassigned F) (print_data : CKey → ℕ → ℕ → F → List ℕ → List ℕ) (set : Settings)
    (fuel : ℕ) (ratio : Ratio) (store : Store Tree F) (fg_n i rounds seed : ℕ)
    → set.warehouse_num < 255
    → set.warehouse_num ≤ i
    → i < fg_n
    → (range : WarehouseRange) × (get_elem? (deal_warehouses set.warehouse_num fg_n) i ≡ some range)
      × (run_worker m float blank print_data set fuel ratio range (suc rounds) store seed
          ≡ fault division_by_zero)
unfolding run_worker run_round
run_worker-without_warehouse m float blank print_data set fuel ratio store fg_n i rounds seed few h
      lt =
    let n = set.warehouse_num in
    let (d, s, e, _, _, _) = random_number_bounds 1 100 seed (omega arith) (omega arith) in
    (
      record { w_id_start = n + 1; w_id_end = n + 1 },
      deal_warehouses-empty n fg_n i h lt (omega arith),
      rw (e, random_number-empty n s (omega arith)),
    )
