-- ===== src/Tpcc/Sound.antt =====
-- benchmark/real_world/tpcc.cpp: what every transaction keeps of the vectors and of the orders.
use sidle_baselines.Base.{ℕ, ◌-◌, ◌^◌, ◌≤◌, ◌<◌, ◌≡◌, sym, ap, ◌∙◌, arith}
use std.Path.{subst}
use sidle_baselines.Memory.{Array}
use sidle_baselines.Bytes.{little}
use sidle_baselines.Keys.Structs.{no_key, no_struct, o_key, o_struct}
use sidle_baselines.Random.Draws.{num_customer_per_district}
use sidle_baselines.Masstree.{MassTree, get}
use sidle_baselines.Tpcc.Store.{Store}
use sidle_baselines.Tpcc.Places.{
  pair_written, triple_written, pair_written-size, triple_written-size,
}
use sidle_baselines.Tpcc.NewOrderEffect.{HasPlaces}
use sidle_baselines.Tpcc.DeliveryDistrict.{HasPending, HasOrder, newest}

module _ (warehouses districts : ℕ) where
  -- The vectors have a place for each warehouse, district and customer.
  pub record IsShaped (pending : Array (Array ℕ)) (latest : Array (Array (Array ℕ))) : Type 0 where
    pub pending_w : warehouses ≤ pending.size
    pub pending_d : (w : ℕ) → 1 ≤ w → w ≤ warehouses → districts ≤ (pending.cell (w - 1)).size
    pub latest_w : warehouses ≤ latest.size
    pub latest_d : (w : ℕ) → 1 ≤ w → w ≤ warehouses → districts ≤ (latest.cell (w - 1)).size
    pub latest_c :
        (w d : ℕ)
        → 1 ≤ w
        → w ≤ warehouses
        → 1 ≤ d
        → d ≤ districts
        → num_customer_per_district ≤ ((latest.cell (w - 1)).cell (d - 1)).size

  pub IsShaped-written :
      (pending : Array (Array ℕ)) (latest : Array (Array (Array ℕ))) (w d c o : ℕ)
      → IsShaped pending latest
      → IsShaped (pair_written pending w d o) (triple_written latest w d c o)
  IsShaped-written pending latest w d c o shape = record {
    pending_w = shape.pending_w;
    pending_d =
        λ k lo hi. omega (arith, shape.pending_d k lo hi, pair_written-size pending w d o (k - 1));
    latest_w = shape.latest_w;
    latest_d = λ k lo hi.
        omega (arith, shape.latest_d k lo hi, (triple_written-size latest w d c o (k - 1) 0).0);
    latest_c = λ k j lo hi j_lo j_hi. omega (
      arith,
      shape.latest_c k j lo hi j_lo j_hi,
      (triple_written-size latest w d c o (k - 1) (j - 1)).1,
    );
  }

module _ {Tree : Type 0 → Type 0} {F : Type 0} (m : MassTree Tree) (warehouses districts : ℕ) where
  -- Besides, where a district's newest new order has a row, the order has one.
  pub record IsSound (store : Store Tree F) : Type 0 where
    pub shape :
        IsShaped warehouses districts store.pending_new_order_per_dis
          store.latest_order_id_per_customer
    pub orders :
        (w d : ℕ)
        → 1 ≤ w
        → w ≤ warehouses
        → 1 ≤ d
        → d ≤ districts
        → HasOrder m store.pending_new_order_per_dis w d store

  module _ (few_warehouses : warehouses < 2 ^ 16) (few_districts : districts < 2 ^ 8) where
    pub IsSound-HasPlaces :
        (store : Store Tree F) (w d c : ℕ)
        → IsSound store
        → 1 ≤ w
        → w ≤ warehouses
        → 1 ≤ d
        → d ≤ districts
        → 1 ≤ c
        → c ≤ num_customer_per_district
        → HasPlaces store w d c
    IsSound-HasPlaces store w d c sound w_lo w_hi d_lo d_hi c_lo c_hi =
        let pending_w = sound.shape.pending_w in
        let pending_d = sound.shape.pending_d w w_lo w_hi in
        let latest_w = sound.shape.latest_w in
        let latest_d = sound.shape.latest_d w w_lo w_hi in
        let latest_c = sound.shape.latest_c w d w_lo w_hi d_lo d_hi in
        record {
          w_pos = w_lo;
          w_fits = omega arith;
          d_pos = d_lo;
          d_fits = omega arith;
          c_pos = c_lo;
          c_fits = omega arith;
          pending_w = omega arith;
          pending_d = omega arith;
          latest_w = omega arith;
          latest_d = omega arith;
          latest_c = omega arith;
        }

    pub IsSound-HasPending :
        (store : Store Tree F) (w d : ℕ)
        → IsSound store
        → 1 ≤ w
        → w ≤ warehouses
        → 1 ≤ d
        → d ≤ districts
        → HasPending store.pending_new_order_per_dis w d
    IsSound-HasPending store w d sound w_lo w_hi d_lo d_hi =
        let pending_w = sound.shape.pending_w in
        let pending_d = sound.shape.pending_d w w_lo w_hi in
        record {
          w_pos = w_lo;
          w_fits = omega arith;
          d_pos = d_lo;
          d_fits = omega arith;
          w_le = omega arith;
          d_le = omega arith;
        }

  -- A transaction that leaves the vectors and the tables of orders alone keeps them sound.
  pub IsSound-same :
      (store after : Store Tree F)
      → after.pending_new_order_per_dis ≡ store.pending_new_order_per_dis
      → after.latest_order_id_per_customer ≡ store.latest_order_id_per_customer
      → after.table_new_order ≡ store.table_new_order
      → after.table_order ≡ store.table_order
      → IsSound store
      → IsSound after
  IsSound-same store after pending latest new_order order sound = record {
    shape =
        subst (λ rows. IsShaped warehouses districts rows after.latest_order_id_per_customer)
          (sym pending)
          (subst (IsShaped warehouses districts store.pending_new_order_per_dis) (sym latest)
            sound.shape);
    orders = λ w d w_lo w_hi d_lo d_hi.
        subst (λ rows. HasOrder m rows w d after) (sym pending)
          (λ v_no there.
            let o = newest store.pending_new_order_per_dis w d in
            let (v_o, there') =
              sound.orders w d w_lo w_hi d_lo d_hi v_no
                (ap (λ t. get m little t (no_key w d o)) (sym new_order) ∙ there) in
            (v_o, ap (λ t. get m little t (o_key w d o)) order ∙ there'));
  }
