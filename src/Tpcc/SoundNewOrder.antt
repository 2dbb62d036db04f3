-- ===== src/Tpcc/SoundNewOrder.antt =====
-- benchmark/real_world/tpcc.cpp `txn_new_order`: a new order keeps the vectors and the orders sound.
use sidle_baselines.Base.{
  ℕ, ◌-◌, ◌%◌, ◌^◌, ◌≤◌, ◌<◌, ◌≡◌, ◌≢◌, ◌⊎◌, sym, ap, ◌∙◌, Option, some, inl, inr, arith,
}
use std.Path.{subst}
use native.Mathlib.Decide.{ℕ_discrete}
use sidle_baselines.Memory.{done}
use sidle_baselines.Bytes.{little}
use sidle_baselines.Keys.Structs.{no_key, no_struct, o_key, o_struct}
use sidle_baselines.Keys.Apart.{no_key_apart, o_key_apart}
use sidle_baselines.Random.Draws.{num_customer_per_district}
use sidle_baselines.Masstree.{MassTree, IsMap, get}
use sidle_baselines.Tpcc.Values.{FloatOps, NoVal, OVal}
use sidle_baselines.Tpcc.Store.{Store, Unassigned, uint32_mod}
use sidle_baselines.Tpcc.Places.{pair_written, pair_written-at, pair_written-other}
use sidle_baselines.Tpcc.NewOrderDraws.{NewOrderDraw}
use sidle_baselines.Tpcc.NewOrder.{run_new_order}
use sidle_baselines.Tpcc.NewOrderEffect.{order_id}
use sidle_baselines.Tpcc.NewOrderKeeps.{IsEntered, run_new_order-IsEntered}
use sidle_baselines.Tpcc.DeliveryDistrict.{HasOrder, newest}
use sidle_baselines.Tpcc.Sound.{IsShaped, IsShaped-written, IsSound, IsSound-HasPlaces}

module _ {Tree : Type 0 → Type 0} {F : Type 0} (m : MassTree Tree) (warehouses districts : ℕ) where
  module _ (map : IsMap m) (float : FloatOps F) (blank : Unassigned F)
      (few_warehouses : warehouses < 2 ^ 16) (few_districts : districts < 2 ^ 8)
      (store : Store Tree F) (sound : IsSound m warehouses districts store) (w : ℕ) (w_lo : 1 ≤ w)
      (w_hi : w ≤ warehouses) where
    module _ (draw : NewOrderDraw) (d_lo : 1 ≤ draw.district_id)
        (d_hi : draw.district_id ≤ districts) (after : Store Tree F)
        (entered : IsEntered m map float blank store w draw after) where
      -- the order of the district that is written to
      here :
          HasOrder m
            (pair_written store.pending_new_order_per_dis w draw.district_id
              (order_id m float blank store w draw))
            w
            draw.district_id
            after
      here =
          let d = draw.district_id in
          let o = order_id m float blank store w draw in
          let rows = pair_written store.pending_new_order_per_dis w d o in
          let wrapped : o % uint32_mod ≡ o = omega arith in
          let named : o ≡ newest rows w d = sym (
            ap (λ x. x % uint32_mod) (pair_written-at store.pending_new_order_per_dis w d o)
            ∙ wrapped) in
          subst
            (λ x.
              (v_no : NoVal)
              → get m little after.table_new_order (no_key w d x) ≡ some v_no
              → (v_o : OVal) × (get m little after.table_order (o_key w d x) ≡ some v_o))
            named entered.has_order

      -- the order of another district
      elsewhere :
          (w' d' : ℕ)
          → 1 ≤ w'
          → w' ≤ warehouses
          → 1 ≤ d'
          → d' ≤ districts
          → (w ≢ w') ⊎ (draw.district_id ≢ d')
          → HasOrder m
              (pair_written store.pending_new_order_per_dis w draw.district_id
                (order_id m float blank store w draw))
              w'
              d'
              after
      elsewhere w' d' w_lo' w_hi' d_lo' d_hi' apart =
          let d = draw.district_id in
          let o = order_id m float blank store w draw in
          let rows = store.pending_new_order_per_dis in
          let n = newest rows w' d' in
          let places : (w - 1 ≢ w' - 1) ⊎ (d - 1 ≢ d' - 1) = elim apart [
            | inl w_apart ↦ inl (omega arith)
            | inr d_apart ↦ inr (omega arith)
          ] in
          let ids : (w ≢ w') ⊎ ((d ≢ d') ⊎ (o ≢ n)) = elim apart [
            | inl w_apart ↦ inl w_apart
            | inr d_apart ↦ inr (inl d_apart)
          ] in
          let named : n ≡ newest (pair_written rows w d o) w' d' =
            sym
              (ap (λ x. x % uint32_mod) (pair_written-other rows w d o (w' - 1) (d' - 1) places)) in
          let no_still = entered.other_new_orders (no_key w' d' n) (
            no_key_apart w d o w' d' n (omega arith) (omega arith) (omega arith) (omega arith)
              (omega arith) (omega arith) ids) in
          let o_still = entered.other_orders (o_key w' d' n) (
            o_key_apart w d o w' d' n (omega arith) (omega arith) (omega arith) (omega arith)
              (omega arith) (omega arith) ids) in
          subst
            (λ x.
              (v_no : NoVal)
              → get m little after.table_new_order (no_key w' d' x) ≡ some v_no
              → (v_o : OVal) × (get m little after.table_order (o_key w' d' x) ≡ some v_o))
            named
            (λ v_no there.
              let (v_o, there') =
                sound.orders w' d' w_lo' w_hi' d_lo' d_hi' v_no (sym no_still ∙ there) in
              (v_o, o_still ∙ there'))

      at_pair :
          (w' d' : ℕ)
          → w ≡ w'
          → draw.district_id ≡ d'
          → HasOrder m
              (pair_written store.pending_new_order_per_dis w draw.district_id
                (order_id m float blank store w draw))
              w'
              d'
              after
      at_pair w' d' same_w same_d =
          let rows =
            pair_written store.pending_new_order_per_dis w draw.district_id
              (order_id m float blank store w draw) in
          subst (λ x. HasOrder m rows x d' after) same_w
            (subst (λ x. HasOrder m rows w x after) same_d here)

      IsEntered-IsSound : IsSound m warehouses districts after
      IsEntered-IsSound = record {
        shape =
            subst (λ rows. IsShaped warehouses districts rows after.latest_order_id_per_customer)
              (sym entered.pending_is)
              (subst
                (IsShaped warehouses districts (
                  pair_written store.pending_new_order_per_dis w draw.district_id
                    (order_id m float blank store w draw)))
                (sym entered.latest_is)
                (IsShaped-written warehouses districts store.pending_new_order_per_dis
                  store.latest_order_id_per_customer w draw.district_id draw.customer_id
                  (order_id m float blank store w draw) sound.shape));
        orders = λ w' d' w_lo' w_hi' d_lo' d_hi'.
            subst (λ rows. HasOrder m rows w' d' after) (sym entered.pending_is)
              (elim (ℕ_discrete w w') [
                | no w_apart ↦ elsewhere w' d' w_lo' w_hi' d_lo' d_hi' (inl w_apart)
                | yes same_w ↦ elim (ℕ_discrete draw.district_id d') [
                  | no d_apart ↦ elsewhere w' d' w_lo' w_hi' d_lo' d_hi' (inr d_apart)
                  | yes same_d ↦ at_pair w' d' same_w same_d
                ]
              ]);
      }

    -- On tables that are maps, with fewer than 2^16 warehouses and 256 districts: where the vectors have a
    -- place for each warehouse, district and customer, and a district's newest new order has an order if
    -- it has a row, a new order of a district and a customer that exist returns, and this holds again; the
    -- customers keep their rows.
    pub run_new_order-IsSound :
        (draw : NewOrderDraw)
        → 1 ≤ draw.district_id
        → draw.district_id ≤ districts
        → 1 ≤ draw.customer_id
        → draw.customer_id ≤ num_customer_per_district
        → (total : Option F) × (after : Store Tree F) × (run_new_order m float blank w draw store
            ≡ done (total, after))
          × IsSound m warehouses districts after
          × (after.table_customer ≡ store.table_customer)
    run_new_order-IsSound draw d_lo d_hi c_lo c_hi =
        let places =
          IsSound-HasPlaces m warehouses districts few_warehouses few_districts store w
            draw.district_id draw.customer_id sound w_lo w_hi d_lo d_hi c_lo c_hi in
        let (total, after, e, entered) =
          run_new_order-IsEntered m map float blank store w draw places in
        (total, after, e, IsEntered-IsSound draw d_lo d_hi after entered, entered.customers)
