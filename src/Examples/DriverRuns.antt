-- ===== src/Examples/DriverRuns.antt =====
-- The worker threads of benchmark/real_world/tpcc.cpp, and a new order with its delivery, at small inputs.
use sidle_baselines.Base.{
  ℕ, ◌/◌, ◌≡◌, refl, true, none, some, List, [], ◌∷◌, length, get_elem?, arith,
}
use std.Path.{subst}
use sidle_baselines.Memory.{done, fault, division_by_zero}
use sidle_baselines.Bytes.{little, memcmp}
use sidle_baselines.Bytes.Equality.{same_bytes_refl}
use sidle_baselines.Keys.Packed.{to_str_key}
use sidle_baselines.Keys.Structs.{
  CKey, no_key, no_struct, o_key, o_struct, i_key, i_struct, d_key, d_struct,
}
use sidle_baselines.Masstree.{get}
use sidle_baselines.Tpcc.Values.{IVal, NoVal, OVal}
use sidle_baselines.Tpcc.Store.{Store}
use sidle_baselines.Tpcc.NewOrderDraws.{Line, NewOrderDraw}
use sidle_baselines.Tpcc.NewOrder.{run_new_order}
use sidle_baselines.Tpcc.NewOrderEffect.{HasPlaces, order_id, order_row}
use sidle_baselines.Tpcc.Delivery.{deliver_district}
use sidle_baselines.Tpcc.OrderLife.{new_order-delivered, aborted-skipped}
use sidle_baselines.Tpcc.Payment.{is_bad_credit}
use sidle_baselines.Tpcc.Credits.{HasGoodCredit}
use sidle_baselines.Tpcc.Sound.{IsSound}
use sidle_baselines.Tpcc.Warehouses.{
  WarehouseRange, deal_warehouses, owners, AreEven, deal_warehouses-owners,
}
use sidle_baselines.Tpcc.Mix.{Ratio, payment}
use sidle_baselines.Tpcc.Worker.{run_worker}
use sidle_baselines.Tpcc.WorkerRuns.{IsSoundHere, run_worker-IsSound, run_worker-without_warehouse}
use sidle_baselines.Examples.TpccRuns.{floats, blank, district}
use sidle_baselines.Examples.SortedTree.{
  SortedTree, sorted_tree, sorted_tree-IsMap, sorted_tree-IsScanned,
}
use sidle_baselines.Examples.DeliveryRuns.{one_district, pending_store, pending_store-HasOrder}

abbrev mix : Ratio
mix = record { new_order = 45; payment = 43; delivery = 4; order_status = 4; stock_level = 4 }

-- seven warehouses among three workers: the fourth belongs to one of them
deal_warehouses-owners_example :
    (length (deal_warehouses 7 3) ≡ 3)
    × AreEven (7 / 3) (deal_warehouses 7 3)
    × (owners 4 (deal_warehouses 7 3) ≡ 1)
deal_warehouses-owners_example =
    deal_warehouses-owners 7 3 (omega arith) (omega arith) 4 (omega arith) (omega arith)

abbrev print_nothing : CKey → ℕ → ℕ → ℕ → List ℕ → List ℕ
print_nothing k d w amount data_ = []

-- one warehouse and two workers
run_worker-without_warehouse_example :
    (range : WarehouseRange) × (get_elem? (deal_warehouses 1 2) 1 ≡ some range)
    × (run_worker sorted_tree floats blank print_nothing one_district 0 mix range 6 pending_store 42
        ≡ fault division_by_zero)
run_worker-without_warehouse_example =
    run_worker-without_warehouse sorted_tree floats blank print_nothing one_district 0 mix
      pending_store 2 1 5 42 (omega arith) (omega arith) (omega arith)

pending_store-IsSound : IsSound sorted_tree 1 1 pending_store
pending_store-IsSound = record {
  shape = record {
    pending_w = omega arith;
    pending_d = λ w lo hi. omega arith;
    latest_w = omega arith;
    latest_d = λ w lo hi. omega arith;
    latest_c = λ w d w_lo w_hi d_lo d_hi. omega arith;
  };
  orders = λ w d w_lo w_hi d_lo d_hi.
      let only : 1 ≡ w = omega arith in
      subst
        (λ x.
          (v_no : NoVal)
          → get sorted_tree little pending_store.table_new_order (no_key x d 3000) ≡ some v_no
          → (v_o : OVal) × (get sorted_tree little pending_store.table_order (o_key x d 3000)
              ≡ some v_o))
        only (pending_store-HasOrder d d_lo d_hi);
}

pending_store-credits : HasGoodCredit sorted_tree blank pending_store.table_customer
unfolding get is_bad_credit memcmp
pending_store-credits k = refl

run_worker-IsSound_example :
    (after : Store SortedTree ℕ) × (s : ℕ) × (run_worker sorted_tree floats blank print_nothing
        one_district 0 mix
        (record { w_id_start = 1; w_id_end = 2 })
        1000
        pending_store
        42
      ≡ done (after, s))
    × IsSoundHere sorted_tree blank 1 after
run_worker-IsSound_example =
    run_worker-IsSound sorted_tree sorted_tree-IsMap sorted_tree-IsScanned floats blank
      print_nothing one_district refl (omega arith) (omega arith) mix 1000 pending_store
      (record { sound = pending_store-IsSound; good_credit = pending_store-credits }) 42

abbrev item : IVal ℕ
item = record { i_price = 3; i_name = []; i_data = []; i_im_id = 1 }

abbrev one_line : Line
one_line = record { item_id = 7; supplier_warehouse_id = 1; order_quantity = 2 }

abbrev one_line_order : NewOrderDraw
one_line_order = record {
  district_id = 1;
  customer_id = 7;
  lines = one_line ∷ [];
  all_local = true;
}

abbrev stocked_store : Store SortedTree ℕ
stocked_store = record pending_store { table_item = (to_str_key little (i_key 7), item) ∷ [] }

item_found : get sorted_tree little stocked_store.table_item (i_key 7) ≡ some item
unfolding get
item_found = rw (same_bytes_refl (to_str_key little (i_key 7)))

stocked_store-HasPlaces : HasPlaces stocked_store 1 1 7
stocked_store-HasPlaces = record {
  w_pos = omega arith;
  w_fits = omega arith;
  d_pos = omega arith;
  d_fits = omega arith;
  c_pos = omega arith;
  c_fits = omega arith;
  pending_w = omega arith;
  pending_d = omega arith;
  latest_w = omega arith;
  latest_d = omega arith;
  latest_c = omega arith;
}

new_order-delivered_example :
    (total : ℕ) × (entered after : Store SortedTree ℕ) × (run_new_order sorted_tree floats blank 1
        one_line_order stocked_store
      ≡ done (some total, entered))
    × (deliver_district sorted_tree floats blank 1 4 1 entered ≡ done (true, after))
    × (get sorted_tree little after.table_new_order
          (no_key 1 1 (order_id sorted_tree floats blank stocked_store 1 one_line_order))
        ≡ none)
    × (get sorted_tree little after.table_order
          (o_key 1 1 (order_id sorted_tree floats blank stocked_store 1 one_line_order))
        ≡ some (record (order_row sorted_tree floats blank stocked_store 1 one_line_order) {
          o_carrier_id = 4;
        }))
new_order-delivered_example =
    new_order-delivered sorted_tree sorted_tree-IsMap sorted_tree-IsScanned floats blank
      stocked_store 1 4 one_line_order stocked_store-HasPlaces ((item, item_found), tt)
      (omega arith)

-- the district's row is there, and no item
abbrev unstocked_store : Store SortedTree ℕ
unstocked_store = record pending_store {
  table_district = (to_str_key little (d_key 1 1), district) ∷ [];
}

district_found : get sorted_tree little unstocked_store.table_district (d_key 1 1) ≡ some district
unfolding get
district_found = rw (same_bytes_refl (to_str_key little (d_key 1 1)))

item_missing : get sorted_tree little unstocked_store.table_item (i_key 7) ≡ none
unfolding get
item_missing = refl

unstocked_store-HasPlaces : HasPlaces unstocked_store 1 1 7
unstocked_store-HasPlaces = record {
  w_pos = omega arith;
  w_fits = omega arith;
  d_pos = omega arith;
  d_fits = omega arith;
  c_pos = omega arith;
  c_fits = omega arith;
  pending_w = omega arith;
  pending_d = omega arith;
  latest_w = omega arith;
  latest_d = omega arith;
  latest_c = omega arith;
}

aborted-skipped_example :
    (end : Store SortedTree ℕ) × (run_new_order sorted_tree floats blank 1 one_line_order
        unstocked_store
      ≡ done (none, end))
    × (deliver_district sorted_tree floats blank 1 4 1 end ≡ done (true, end))
aborted-skipped_example =
    aborted-skipped sorted_tree sorted_tree-IsMap sorted_tree-IsScanned floats blank unstocked_store
      1 4 one_line_order unstocked_store-HasPlaces district [] one_line [] district_found
      (omega arith) refl tt item_missing
