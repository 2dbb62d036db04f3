-- ===== src/Examples/DeliveryRuns.antt =====
-- The delivery, the order status and the stock level of benchmark/real_world/tpcc.cpp on a small store whose
-- tables can be scanned.
use sidle_baselines.Base.{
  ℕ, ◌-◌, ◌≤◌, ◌≡◌, refl, true, some, List, [], ◌∷◌, ◌++◌, length, take, arith,
}
use std.Path.{subst}
use sidle_baselines.Memory.{done}
use sidle_baselines.Bytes.{little}
use sidle_baselines.Bytes.Equality.{same_bytes_refl}
use sidle_baselines.Keys.Packed.{to_str_key}
use sidle_baselines.Keys.Structs.{
  NoKey, no_key, no_struct, OKey, o_key, o_struct, OlKey, ol_key, ol_struct,
}
use sidle_baselines.Keys.OrderLine.{FitsOl, ol_stored_key}
use sidle_baselines.Keys.StoredRows.{stored_rows, AllFit}
use sidle_baselines.Masstree.{get}
use sidle_baselines.Tpcc.Values.{OVal, OlVal}
use sidle_baselines.Tpcc.Store.{Store}
use sidle_baselines.Tpcc.NewOrderDraws.{Settings}
use sidle_baselines.Tpcc.NewOrderEffect.{HasPlaces}
use sidle_baselines.Tpcc.HackInfo.{fresh_pending, fresh_latest}
use sidle_baselines.Tpcc.OrderStatus.{run_order_status}
use sidle_baselines.Tpcc.OrderStatusLines.{order_lines, run_order_status-order_lines}
use sidle_baselines.Tpcc.Delivery.{txn_delivery}
use sidle_baselines.Tpcc.DeliveryDistrict.{HasPending, HasOrder, IsServed, LeavesAlone}
use sidle_baselines.Tpcc.DeliveryLoop.{NewOrderApart, OrderApart, txn_delivery-IsServed}
use sidle_baselines.Examples.TpccRuns.{settings, floats, blank}
use sidle_baselines.Examples.SortedTree.{
  SortedTree, sorted_tree, sorted_tree-IsMap, sorted_tree-IsScanned,
}

abbrev pub one_district : Settings
one_district = record settings { num_district_per_warehouse = 1 }

abbrev pub entered_order : OVal
entered_order = record {
  o_c_id = 7;
  o_carrier_id = 0;
  o_ol_cnt = 2;
  o_all_local = true;
  o_entry_d = 3001;
}

abbrev line : ℕ → OlVal ℕ
line amount = record {
  ol_i_id = 1;
  ol_delivery_d = 0;
  ol_amount = amount;
  ol_supply_w_id = 1;
  ol_quantity = 5;
}

abbrev two_rows : List (OlKey × OlVal ℕ)
two_rows = (ol_key 1 1 3000 1, line 30) ∷ (ol_key 1 1 3000 2, line 12) ∷ []

-- a warehouse with a district, whose order 3000 is not delivered
abbrev pub pending_store : Store SortedTree ℕ
pending_store = record {
  table_warehouse = [];
  table_district = [];
  table_customer = [];
  table_history = [];
  table_new_order = (to_str_key little (no_key 1 1 3000), record { no_dummy = [] }) ∷ [];
  table_order = (to_str_key little (o_key 1 1 3000), entered_order) ∷ [];
  table_order_line = stored_rows (ol_stored_key little) two_rows;
  table_item = [];
  table_stock = [];
  pending_new_order_per_dis = fresh_pending one_district;
  latest_order_id_per_customer = fresh_latest one_district;
  tl_hack = 3002;
}

two_rows-fit : AllFit (ol_stored_key little) two_rows
two_rows-fit = (
  record {
    number_fits = omega arith;
    o_id_fits = omega arith;
    d_id_fits = omega arith;
    w_id_fits = omega arith;
  },
  (
    record {
      number_fits = omega arith;
      o_id_fits = omega arith;
      d_id_fits = omega arith;
      w_id_fits = omega arith;
    },
    tt,
  ),
)

order_found : get sorted_tree little pending_store.table_order (o_key 1 1 3000) ≡ some entered_order
unfolding get
order_found = rw (same_bytes_refl (to_str_key little (o_key 1 1 3000)))

pending_store-HasPending :
    (d : ℕ) → 1 ≤ d → d ≤ 1 → HasPending pending_store.pending_new_order_per_dis 1 d
pending_store-HasPending d lo hi = record {
  w_pos = omega arith;
  w_fits = omega arith;
  d_pos = lo;
  d_fits = omega arith;
  w_le = omega arith;
  d_le = hi;
}

pub pending_store-HasOrder :
    (d : ℕ)
    → 1 ≤ d
    → d ≤ 1
    → HasOrder sorted_tree pending_store.pending_new_order_per_dis 1 d pending_store
pending_store-HasOrder d lo hi =
    let only : 1 ≡ d = omega arith in
    subst (λ x. HasOrder sorted_tree pending_store.pending_new_order_per_dis 1 x pending_store) only
      (λ v_no there. (entered_order, order_found))

txn_delivery-IsServed_example :
    (carrier : ℕ) × (s : ℕ) × (after : Store SortedTree ℕ) × (txn_delivery sorted_tree floats blank
        one_district 1 pending_store 42
      ≡ done (after, s))
    × (1 ≤ carrier)
    × (carrier ≤ 1)
    × ((d : ℕ)
        → 1 ≤ d
        → d ≤ 1
        → IsServed sorted_tree pending_store.pending_new_order_per_dis 1 carrier d pending_store
            after)
    × LeavesAlone sorted_tree blank pending_store after
    × ((j : NoKey)
        → NewOrderApart pending_store.pending_new_order_per_dis 1 1 1 j
        → get sorted_tree little after.table_new_order j
          ≡ get sorted_tree little pending_store.table_new_order j)
    × ((j : OKey)
        → OrderApart pending_store.pending_new_order_per_dis 1 1 1 j
        → get sorted_tree little after.table_order j
          ≡ get sorted_tree little pending_store.table_order j)
txn_delivery-IsServed_example =
    txn_delivery-IsServed sorted_tree sorted_tree-IsMap sorted_tree-IsScanned floats blank
      one_district (omega arith) (omega arith) 1 pending_store pending_store-HasPending
      pending_store-HasOrder 42

pending_store-HasPlaces : HasPlaces pending_store 1 1 7
pending_store-HasPlaces = record {
  w_pos = omega arith;
  w_fits = omega arith;
  d_pos = omega arith;
  d_fits = omega arith;
  c_pos = omega arith;
  c_fits = omega arith;
  pending_w = omega arith;
  pending_d = omega arith;
  latest_w = omega arith;
  latest_d = omega arith;
  latest_c = omega arith;
}

-- the same order with a line of the next one behind its two
abbrev next_line : List (OlKey × OlVal ℕ)
next_line = (ol_key 1 1 3001 1, line 9) ∷ []

abbrev followed_store : Store SortedTree ℕ
followed_store = record pending_store {
  table_order_line = stored_rows (ol_stored_key little) (two_rows ++ next_line);
}

followed_store-HasPlaces : HasPlaces followed_store 1 1 7
followed_store-HasPlaces = record {
  w_pos = omega arith;
  w_fits = omega arith;
  d_pos = omega arith;
  d_fits = omega arith;
  c_pos = omega arith;
  c_fits = omega arith;
  pending_w = omega arith;
  pending_d = omega arith;
  latest_w = omega arith;
  latest_d = omega arith;
  latest_c = omega arith;
}

next_line-fit : FitsOl (ol_key 1 1 3001 1)
next_line-fit = record {
  number_fits = omega arith;
  o_id_fits = omega arith;
  d_id_fits = omega arith;
  w_id_fits = omega arith;
}

run_order_status-order_lines_example :
    run_order_status sorted_tree 1 1 7 followed_store
    ≡ done (
        take 10 (order_lines 1 1 3000 1 (line 30 ∷ line 12 ∷ []))
        ++ take (10 - length (line 30 ∷ line 12 ∷ [])) next_line)
unfolding sorted_tree-IsScanned
run_order_status-order_lines_example =
    run_order_status-order_lines sorted_tree sorted_tree-IsScanned followed_store 1 1 7
      followed_store-HasPlaces [] next_line (line 30) (line 12 ∷ []) refl
      (two_rows-fit.0, (two_rows-fit.1.0, (next_line-fit, tt))) tt
