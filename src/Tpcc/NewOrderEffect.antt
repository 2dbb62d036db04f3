-- ===== src/Tpcc/NewOrderEffect.antt =====
-- benchmark/real_world/tpcc.cpp `txn_new_order`: what a transaction that commits, and one that aborts,
-- leaves behind.
use sidle_baselines.Base.{
  ℕ, ◌+◌, ◌-◌, ◌%◌, ◌≤◌, ◌<◌, ◌^◌, ◌≡◌, ◌≢◌, refl, some, [], ◌∷◌, length, arith,
}
use sidle_baselines.Memory.{done}
use sidle_baselines.Bytes.{little}
use sidle_baselines.Keys.Packed.{to_str_key}
use sidle_baselines.Keys.Structs.{d_key, d_struct, NoKey, no_key, no_struct, OKey, o_key, o_struct}
use sidle_baselines.Masstree.{MassTree, IsMap, get}
use sidle_baselines.Masstree.WrapperMap.{insert-get}
use sidle_baselines.Tpcc.Values.{FloatOps, OVal}
use sidle_baselines.Tpcc.Store.{Store, Unassigned, uint32_mod}
use sidle_baselines.Tpcc.Places.{
  pair_written, triple_written, write_pair_lem, write_triple_lem, pair_written-at,
  triple_written-at,
}
use sidle_baselines.Tpcc.NewOrderDraws.{NewOrderDraw}
use sidle_baselines.Tpcc.NewOrder.{read_district, open_order}

-- The warehouse, district and customer of an order have their places in the two vectors.
pub record HasPlaces {Tree : Type 0 → Type 0} {F : Type 0} (store : Store Tree F) (w d c : ℕ)
    : Type 0 where
  pub w_pos : 1 ≤ w
  pub w_fits : w < 2 ^ 16
  pub d_pos : 1 ≤ d
  pub d_fits : d < 2 ^ 8
  pub c_pos : 1 ≤ c
  pub c_fits : c < 2 ^ 16
  pub pending_w : w ≤ store.pending_new_order_per_dis.size
  pub pending_d : d ≤ (store.pending_new_order_per_dis.cell (w - 1)).size
  pub latest_w : w ≤ store.latest_order_id_per_customer.size
  pub latest_d : d ≤ (store.latest_order_id_per_customer.cell (w - 1)).size
  pub latest_c : c ≤ ((store.latest_order_id_per_customer.cell (w - 1)).cell (d - 1)).size

module _ {Tree : Type 0 → Type 0} {F : Type 0} (m : MassTree Tree) (float : FloatOps F)
    (blank : Unassigned F) (store : Store Tree F) (w : ℕ) (draw : NewOrderDraw) where
  -- the number that the order gets
  abbrev pub order_id : ℕ
  order_id = ((read_district m float blank w draw store).d_next_o_id + 1) % uint32_mod

  -- the row of the order
  abbrev pub order_row : OVal
  order_row = record {
    o_c_id = draw.customer_id;
    o_carrier_id = 0;
    o_ol_cnt = length draw.lines % 2 ^ 8;
    o_all_local = draw.all_local;
    o_entry_d = store.tl_hack;
  }

  -- Both vectors name the order as the last one.
  pub record NamesOrder (after : Store Tree F) : Type 0 where
    pub pending :
        (after.pending_new_order_per_dis.cell (w - 1)).cell (draw.district_id - 1) ≡ order_id
    pub latest :
        ((after.latest_order_id_per_customer.cell (w - 1)).cell (draw.district_id - 1)).cell
          (draw.customer_id - 1)
        ≡ order_id

  -- what the writes before the loop leave
  pub record IsOpened (opened : Store Tree F) : Type 0 where
    pub items : opened.table_item ≡ store.table_item
    pub customers : opened.table_customer ≡ store.table_customer
    pub district :
        get m little opened.table_district (d_key w draw.district_id)
        ≡ some (record (read_district m float blank w draw store) { d_next_o_id = order_id })
    pub new_order :
        get m little opened.table_new_order (no_key w draw.district_id order_id)
        ≡ some (record { no_dummy = b'n' ∷ b'o' ∷ [] })
    pub order : get m little opened.table_order (o_key w draw.district_id order_id) ≡ some order_row
    pub names : NamesOrder opened
    pub pending_is :
        opened.pending_new_order_per_dis
        ≡ pair_written store.pending_new_order_per_dis w draw.district_id order_id
    pub latest_is :
        opened.latest_order_id_per_customer
        ≡ triple_written store.latest_order_id_per_customer w draw.district_id draw.customer_id
            order_id
    pub other_new_orders :
        (j : NoKey)
        → to_str_key little (no_key w draw.district_id order_id) ≢ to_str_key little j
        → get m little opened.table_new_order j ≡ get m little store.table_new_order j
    pub other_orders :
        (j : OKey)
        → to_str_key little (o_key w draw.district_id order_id) ≢ to_str_key little j
        → get m little opened.table_order j ≡ get m little store.table_order j

  module _ (map : IsMap m) (places : HasPlaces store w draw.district_id draw.customer_id) where
    pub open_order_lem :
        (opened : Store Tree F) × (open_order m float blank w draw store ≡ done opened)
        × IsOpened opened
    unfolding open_order
    open_order_lem =
        let d = draw.district_id in
        let (district, e1, at_d, _) =
          insert-get m map little store.table_district (d_key w d)
            (record (read_district m float blank w draw store) { d_next_o_id = order_id }) in
        let (new_order, e2, at_no, others_no) =
          insert-get m map little store.table_new_order (no_key w d order_id)
            (record { no_dummy = b'n' ∷ b'o' ∷ [] }) in
        let e3 =
          write_pair_lem store.pending_new_order_per_dis w d order_id places.w_pos places.pending_w
            (omega (arith, places.w_fits)) places.d_pos places.pending_d
            (omega (arith, places.d_fits)) in
        let e4 =
          write_triple_lem store.latest_order_id_per_customer w d draw.customer_id order_id
            places.w_pos places.latest_w (omega (arith, places.w_fits)) places.d_pos places.latest_d
            (omega (arith, places.d_fits)) places.c_pos places.latest_c
            (omega (arith, places.c_fits)) in
        let (order, e5, at_o, others_o) =
          insert-get m map little store.table_order (o_key w d order_id) order_row in
        (
          record store {
            table_district = district;
            table_new_order = new_order;
            pending_new_order_per_dis = pair_written store.pending_new_order_per_dis w d order_id;
            latest_order_id_per_customer =
                triple_written store.latest_order_id_per_customer w d draw.customer_id order_id;
            table_order = order;
            tl_hack = (store.tl_hack + 1) % uint32_mod;
          },
          rw (e1, e2, e3, e4, e5),
          record {
            items = refl;
            customers = refl;
            district = at_d;
            new_order = at_no;
            order = at_o;
            names = record {
              pending = pair_written-at store.pending_new_order_per_dis w d order_id;
              latest =
                  triple_written-at store.latest_order_id_per_customer w d draw.customer_id
                    order_id;
            };
            pending_is = refl;
            latest_is = refl;
            other_new_orders = others_no;
            other_orders = others_o;
          },
        )
