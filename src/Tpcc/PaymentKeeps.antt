-- ===== src/Tpcc/PaymentKeeps.antt =====
-- benchmark/real_world/tpcc.cpp `txn_payment`: that it returns where no customer has bad credit, and leaves
-- the vectors and the tables of orders alone.
use sidle_baselines.Base.{ℕ, ◌+◌, ◌%◌, ◌≡◌, refl, List, inl}
use sidle_baselines.Memory.{done}
use sidle_baselines.Bytes.{little}
use sidle_baselines.Keys.Structs.{CKey, w_key, w_struct, d_key, d_struct, c_struct, h_key, h_struct}
use sidle_baselines.Masstree.{MassTree, IsMap, get}
use sidle_baselines.Masstree.WrapperMap.{insert-get}
use sidle_baselines.Tpcc.Values.{FloatOps}
use sidle_baselines.Tpcc.Store.{Store, Unassigned, or_unassigned, uint32_mod}
use sidle_baselines.Tpcc.NewOrderDraws.{Settings}
use sidle_baselines.Tpcc.PaymentDraws.{PaymentDraw, draw_payment_bounds}
use sidle_baselines.Tpcc.Credits.{HasGoodCredit, written-KeepsCredits, KeepsCredits-HasGoodCredit}
use sidle_baselines.Tpcc.PaymentEffect.{pay_customer-done}
use sidle_baselines.Tpcc.Payment.{
  pay_warehouse, pay_district, customer_key, history_row, run_payment, txn_payment,
}

-- The vectors and the tables of new orders and of orders are as they were.
pub record KeepsOrders {Tree : Type 0 → Type 0} {F : Type 0} (store after : Store Tree F)
    : Type 0 where
  pub pending : after.pending_new_order_per_dis ≡ store.pending_new_order_per_dis
  pub latest : after.latest_order_id_per_customer ≡ store.latest_order_id_per_customer
  pub new_orders : after.table_new_order ≡ store.table_new_order
  pub orders : after.table_order ≡ store.table_order

module _ {Tree : Type 0 → Type 0} {F : Type 0} (m : MassTree Tree) (map : IsMap m)
    (float : FloatOps F) (blank : Unassigned F) (print_data : CKey → ℕ → ℕ → F → List ℕ → List ℕ)
    (store : Store Tree F) where
  pub run_payment-KeepsOrders :
      (w : ℕ) (draw : PaymentDraw)
      → HasGoodCredit m blank store.table_customer
      → (after : Store Tree F) × (run_payment m float blank print_data w draw store ≡ done after)
        × KeepsOrders store after
        × HasGoodCredit m blank after.table_customer
  unfolding run_payment
  run_payment-KeepsOrders w draw good =
      let v_w = or_unassigned (get m little store.table_warehouse (w_key w)) blank.v_w in
      let v_d =
        or_unassigned (get m little store.table_district (d_key w draw.district_id)) blank.v_d in
      let k_c = customer_key m float blank print_data w draw in
      let v_c = or_unassigned (get m little store.table_customer k_c) blank.v_c in
      let (warehouse, e1, _, _) =
        insert-get m map little store.table_warehouse (w_key w)
          (pay_warehouse m float blank print_data w draw v_w) in
      let (district, e2, _, _) =
        insert-get m map little store.table_district (d_key w draw.district_id)
          (pay_district m float blank print_data w draw v_d) in
      let (v_c', e0, credit) =
        pay_customer-done m map float blank print_data store w draw v_c (inl (good k_c)) in
      let (customer, e3, at, others) = insert-get m map little store.table_customer k_c v_c' in
      let kept =
        written-KeepsCredits m blank store.table_customer customer k_c v_c' at credit others in
      let (history, e4, _, _) =
        insert-get m map little store.table_history
          (h_key w draw.district_id draw.customer_warehouse_id draw.customer_district_id
            draw.customer_id store.tl_hack)
          (history_row m float blank print_data w draw v_w v_d) in
      (
        record store {
          table_warehouse = warehouse;
          table_district = district;
          table_customer = customer;
          table_history = history;
          tl_hack = (store.tl_hack + 1) % uint32_mod;
        },
        rw (e1, e2, e0, e3, e4),
        record { pending = refl; latest = refl; new_orders = refl; orders = refl },
        KeepsCredits-HasGoodCredit m blank store.table_customer customer kept good,
      )

  -- On tables that are maps, with one warehouse, where no customer has bad credit, `txn_payment` returns from
  -- any seed, leaves the two vectors and the tables of new orders and orders as they were, and no customer
  -- has bad credit.
  pub txn_payment-KeepsOrders :
      (set : Settings) (w : ℕ)
      → set.warehouse_num ≡ 1
      → HasGoodCredit m blank store.table_customer
      → (seed : ℕ)
      → (after : Store Tree F) × (s : ℕ) × (txn_payment m float blank print_data set 0 w store seed
          ≡ done (after, s))
        × KeepsOrders store after
        × HasGoodCredit m blank after.table_customer
  unfolding txn_payment
  txn_payment-KeepsOrders set w one good seed =
      let (draw, s, e, _, _, _, _, _, _, _, _) = draw_payment_bounds set 0 w one seed in
      let (after, e', kept, good') = run_payment-KeepsOrders w draw good in
      (after, s, rw (e, e'), kept, good')
