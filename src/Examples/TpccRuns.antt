-- ===== src/Examples/TpccRuns.antt =====
-- The new-order transaction of benchmark/real_world/tpcc.cpp on small stores, with natural numbers for
-- the floats.
use sidle_baselines.Base.{
  ℕ, ◌+◌, ◌-◌, ◌*◌, ◌/◌, ◌≤◌, ◌≡◌, refl, true, false, none, some, List, [], ◌∷◌, length, arith,
}
use sidle_baselines.Memory.{done, fresh}
use sidle_baselines.Bytes.{little}
use sidle_baselines.Keys.Structs.{
  d_key, d_struct, no_key, no_struct, o_key, o_struct, ol_struct, i_key, i_struct, IKey,
}
use sidle_baselines.Random.Draws.{num_customer_per_district}
use sidle_baselines.Masstree.{get}
use sidle_baselines.Tpcc.Values.{FloatOps, DVal, IVal}
use sidle_baselines.Tpcc.Store.{Store, Unassigned}
use sidle_baselines.Tpcc.NewOrderDraws.{Line, NewOrderDraw, Settings, draw_new_order}
use sidle_baselines.Tpcc.NewOrder.{new_quantity, run_new_order, txn_new_order}
use sidle_baselines.Tpcc.NewOrderInputs.{draw_new_order_bounds, AreLocalLines}
use sidle_baselines.Tpcc.Lines.{HasOrderLines}
use sidle_baselines.Tpcc.NewOrderEffect.{HasPlaces, NamesOrder, order_id, order_row}
use sidle_baselines.Tpcc.NewOrderOutcome.{run_new_order-aborts}
use sidle_baselines.Tpcc.NewOrderTotal.{txn_new_order-commits}
use sidle_baselines.Examples.Trees.{FunctionTree, function_tree, function_tree-IsMap}

-- a stock of 12 less 7 is filled up by 91
new_quantity_filled : new_quantity 12 7 ≡ 96
unfolding new_quantity
new_quantity_filled = refl

abbrev pub settings : Settings
settings = record {
  warehouse_num = 1;
  num_district_per_warehouse = 10;
  g_new_order_remote_item_pct = 1;
  g_uniform_item_dist = false;
}

draw_new_order_bounds_example :
    (draw : NewOrderDraw) × (s : ℕ) × (draw_new_order settings 0 1 42 ≡ done (draw, s))
    × (1 ≤ draw.district_id)
    × (draw.district_id ≤ 10)
    × (1 ≤ draw.customer_id)
    × (draw.customer_id ≤ num_customer_per_district)
    × (5 ≤ length draw.lines)
    × (length draw.lines ≤ 15)
    × AreLocalLines 1 draw.lines
    × (draw.all_local ≡ true)
draw_new_order_bounds_example =
    draw_new_order_bounds settings 0 1 refl (omega arith) (omega arith) 42

abbrev pub floats : FloatOps ℕ
floats = record {
  of_int = λ n. n;
  add = λ a b. a + b;
  sub = λ a b. a - b;
  mul = λ a b. a * b;
  line_amount = λ q p. q * p;
  of_cents = λ n. n / 100;
}

abbrev pub district : DVal ℕ
district = record {
  d_ytd = 0;
  d_tax = 1;
  d_next_o_id = 3001;
  d_name = [];
  d_street1 = [];
  d_street2 = [];
  d_city = [];
  d_state = [];
  d_zip = [];
}

abbrev pub blank : Unassigned ℕ
blank = record {
  v_w = record {
    w_ytd = 0;
    w_tax = 0;
    w_name = [];
    w_street_1 = [];
    w_street_2 = [];
    w_city = [];
    w_state = [];
    w_zip = [];
  };
  v_d = district;
  v_c = record {
    c_discount = 0;
    c_credit_lim = 0;
    c_balance = 0;
    c_ytd_payment = 0;
    c_payment_cnt = 0;
    c_delivery_cnt = 0;
    c_since = 0;
    c_credit = b'G' ∷ b'C' ∷ [];
    c_last = [];
    c_first = [];
    c_street_1 = [];
    c_street_2 = [];
    c_city = [];
    c_state = [];
    c_zip = [];
    c_phone = [];
    c_middle = [];
    c_data = [];
  };
  v_s = record { s_quantity = 50; s_ytd = 0; s_order_cnt = 0; s_remote_cnt = 0 };
}

abbrev item : IVal ℕ
item = record { i_price = 3; i_name = []; i_data = []; i_im_id = 1 }

-- one warehouse with a district and a customer, and the items of the argument
abbrev small_store : FunctionTree (IVal ℕ) → Store FunctionTree ℕ
small_store items = record {
  table_warehouse = λ s. some blank.v_w;
  table_district = λ s. some district;
  table_customer = λ s. some blank.v_c;
  table_history = λ s. none;
  table_new_order = λ s. none;
  table_order = λ s. none;
  table_order_line = λ s. none;
  table_item = items;
  table_stock = λ s. some blank.v_s;
  pending_new_order_per_dis = fresh (fresh 3000 1) 1;
  latest_order_id_per_customer = fresh (fresh (fresh 3000 1) 1) 1;
  tl_hack = 3001;
}

small_store-HasPlaces : (items : FunctionTree (IVal ℕ)) → HasPlaces (small_store items) 1 1 1
small_store-HasPlaces items = record {
  w_pos = omega arith;
  w_fits = omega arith;
  d_pos = omega arith;
  d_fits = omega arith;
  c_pos = omega arith;
  c_fits = omega arith;
  pending_w = omega arith;
  pending_d = omega arith;
  latest_w = omega arith;
  latest_d = omega arith;
  latest_c = omega arith;
}

abbrev two_lines : List Line
two_lines =
    record { item_id = 7; supplier_warehouse_id = 1; order_quantity = 2 }
    ∷ record { item_id = 8; supplier_warehouse_id = 1; order_quantity = 5 }
    ∷ []

abbrev two_line_order : NewOrderDraw
two_line_order = record { district_id = 1; customer_id = 1; lines = two_lines; all_local = true }

abbrev pub stocked : Store FunctionTree ℕ
stocked = small_store (λ s. some item)

abbrev empty : Store FunctionTree ℕ
empty = small_store (λ s. none)

item_found : get function_tree little {K = IKey} {V = IVal ℕ} (λ s. some item) (i_key 7) ≡ some item
unfolding get
item_found = refl

item_found' :
    get function_tree little {K = IKey} {V = IVal ℕ} (λ s. some item) (i_key 8) ≡ some item
unfolding get
item_found' = refl

item_missing : get function_tree little {K = IKey} {V = IVal ℕ} (λ s. none) (i_key 7) ≡ none
unfolding get
item_missing = refl

district_found : get function_tree little empty.table_district (d_key 1 1) ≡ some district
unfolding get
district_found = refl

run_new_order-aborts_example :
    (end : Store FunctionTree ℕ) × (run_new_order function_tree floats blank 1 two_line_order empty
      ≡ done (none, end))
    × (get function_tree little end.table_district (d_key 1 1) ≡ some district)
    × (get function_tree little end.table_new_order
          (no_key 1 1 (order_id function_tree floats blank empty 1 two_line_order))
        ≡ none)
    × (get function_tree little end.table_order
          (o_key 1 1 (order_id function_tree floats blank empty 1 two_line_order))
        ≡ none)
    × NamesOrder function_tree floats blank empty 1 two_line_order end
run_new_order-aborts_example =
    run_new_order-aborts function_tree function_tree-IsMap floats blank empty 1 two_line_order
      (small_store-HasPlaces (λ s. none)) district []
      (record { item_id = 7; supplier_warehouse_id = 1; order_quantity = 2 })
      (record { item_id = 8; supplier_warehouse_id = 1; order_quantity = 5 } ∷ []) district_found
      (omega arith) refl tt item_missing

abbrev one_district : Settings
one_district = record settings { num_district_per_warehouse = 1 }

-- a warehouse with a district of 3000 customers, and every item
abbrev full_store : Store FunctionTree ℕ
full_store = record stocked {
  latest_order_id_per_customer = fresh (fresh (fresh 3000 num_customer_per_district) 1) 1;
}

full_store-HasPlaces :
    (d c : ℕ) → 1 ≤ d → d ≤ 1 → 1 ≤ c → c ≤ num_customer_per_district → HasPlaces full_store 1 d c
full_store-HasPlaces d c d_pos d_le c_pos c_le = record {
  w_pos = omega arith;
  w_fits = omega arith;
  d_pos = d_pos;
  d_fits = omega arith;
  c_pos = c_pos;
  c_fits = omega arith;
  pending_w = omega arith;
  pending_d = d_le;
  latest_w = omega arith;
  latest_d = d_le;
  latest_c = c_le;
}

full_items :
    (i : ℕ) → (v : IVal ℕ) × (get function_tree little full_store.table_item (i_key i) ≡ some v)
unfolding get
full_items i = (item, refl)

txn_new_order-commits_example :
    (draw : NewOrderDraw) × (s : ℕ) × (total : ℕ) × (after : Store FunctionTree ℕ) × (draw_new_order
        one_district 0 1 42
      ≡ done (draw, s))
    × (txn_new_order function_tree floats blank one_district 0 1 full_store 42
        ≡ done ((some total, after), s))
    × (5 ≤ length draw.lines)
    × (length draw.lines ≤ 15)
    × (get function_tree little after.table_order
          (o_key 1 draw.district_id (order_id function_tree floats blank full_store 1 draw))
        ≡ some (order_row function_tree floats blank full_store 1 draw))
    × HasOrderLines function_tree full_store.table_item floats blank 1 draw.district_id
        (order_id function_tree floats blank full_store 1 draw)
        1
        draw.lines
        after.table_order_line
    × NamesOrder function_tree floats blank full_store 1 draw after
txn_new_order-commits_example =
    txn_new_order-commits function_tree function_tree-IsMap floats blank one_district refl
      (omega arith) (omega arith) 1 full_store full_store-HasPlaces (λ i lo hi. full_items i) 42
