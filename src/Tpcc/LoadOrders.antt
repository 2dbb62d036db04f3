-- ===== src/Tpcc/LoadOrders.antt =====
-- benchmark/real_world/tpcc_loader.h `load_order`: the orders, new orders, order lines and the index of orders
-- that the tables start with. `std::shuffle` is a parameter.
use sidle_baselines.Base.{
  ℕ, zero, suc, ◌%◌, Bool, true, false, List, [], ◌∷◌, ltb, leb, if◌then◌else◌,
}
use sidle_baselines.Memory.{Run, done, Array, fresh, read, sub_size}
use sidle_baselines.Memory
use sidle_baselines.Bytes.{little}
use sidle_baselines.Random.FastRandom.{Draw, ◌>>=◌, pure, set_seed0}
use sidle_baselines.Random.Draws.{random_number, num_customer_per_district}
use sidle_baselines.Keys.Packed.{KeyStruct, less}
use sidle_baselines.Keys.Structs.{
  NoKey, no_key, no_struct, OKey, o_key, o_struct, OlKey, ol_key, ol_struct, OrderCidIndexKey,
  order_cid_index_key, order_cid_index_struct,
}
use sidle_baselines.Tpcc.Values.{FloatOps, NoVal, OVal, OlVal}
use sidle_baselines.Tpcc.Store.{uint32_mod}
use sidle_baselines.Tpcc.NewOrderDraws.{Settings}

-- `std::map::emplace`, which leaves a key that is there with its value
unfoldable pub emplace : {K V : Type 0} ⦃s : KeyStruct K⦄ → K → V → List (K × V) → List (K × V)
emplace k v [] = (k, v) ∷ []
emplace k v ((k', v') ∷ rows) =
    let rest = emplace k v rows in
    if less little k k'
    then (k, v) ∷ (k', v') ∷ rows
    else (if less little k' k then (k', v') ∷ rest else (k', v') ∷ rows)

-- the map that `load_order` fills, the maps that it leaves to the other loads, and `ts`
pub record OrderMaps (F : Type 0) : Type 0 where
  pub kvmap : List (OKey × OVal)
  pub temp_no_map : List (NoKey × NoVal)
  pub temp_ol_map : List (OlKey × OlVal F)
  pub temp_order_index_map : List (OrderCidIndexKey × ℕ)
  pub ts : ℕ

abbrev pub no_orders : {F : Type 0} → OrderMaps F
no_orders = record {
  kvmap = [];
  temp_no_map = [];
  temp_ol_map = [];
  temp_order_index_map = [];
  ts = 0;
}

-- the orders below have been delivered
abbrev pub first_pending : ℕ
first_pending = 2101

-- `c_ids` before it is shuffled
abbrev pub customer_ids : Array ℕ
customer_ids = record { size = num_customer_per_district; cell = λ i. suc i }

abbrev pub order_of : ℕ → ℕ → ℕ → ℕ → OVal
order_of ts c_id carrier ol_cnt = record {
  o_c_id = c_id;
  o_carrier_id = carrier;
  o_ol_cnt = ol_cnt;
  o_all_local = true;
  o_entry_d = ts;
}

unfoldable pub draw_carrier : Bool → Draw ℕ
draw_carrier true = random_number 1 10
draw_carrier false = pure 0

-- `temp_no_map.emplace`, at an order that has not been delivered
unfoldable pub add_pending : ℕ → ℕ → ℕ → List (NoKey × NoVal) → List (NoKey × NoVal)
add_pending w_i d_i o_i new_orders =
    if leb first_pending o_i
    then emplace (no_key w_i d_i o_i) (record { no_dummy = b'a' ∷ b' ' ∷ [] }) new_orders
    else new_orders

-- the maps with an order, its place in the index, its lines and, where it is pending, its new order
abbrev pub with_order :
    {F : Type 0} → ℕ → ℕ → ℕ → OVal → List (OlKey × OlVal F) → OrderMaps F → OrderMaps F
with_order w_i d_i o_i v_o lines maps = record {
  kvmap = emplace (o_key w_i d_i o_i) v_o maps.kvmap;
  temp_no_map = add_pending w_i d_i o_i maps.temp_no_map;
  temp_ol_map = lines;
  temp_order_index_map =
      emplace (order_cid_index_key w_i d_i v_o.o_c_id o_i) 0 maps.temp_order_index_map;
  ts = v_o.o_entry_d;
}

abbrev pub line_row : {F : Type 0} → ℕ → OlKey → ℕ → F → OlVal F
line_row o_entry_d k_ol item_id amount = record {
  ol_i_id = item_id;
  ol_delivery_d = if ltb k_ol.ol_o_id first_pending then o_entry_d else 0;
  ol_amount = amount;
  ol_supply_w_id = k_ol.ol_w_id;
  ol_quantity = 5;
}

module _ {F : Type 0} (float : FloatOps F) where
  unfoldable pub draw_amount : Bool → Draw F
  draw_amount true = pure (float.of_int 0)
  draw_amount false = do cents ← random_number 1 999999; pure (float.of_cents cents)

  unfoldable pub load_line : ℕ → OlKey → Draw (OlVal F)
  load_line o_entry_d k_ol = do
    item_id ← random_number 1 100000
    amount ← draw_amount (ltb k_ol.ol_o_id first_pending)
    pure (line_row o_entry_d k_ol item_id amount)

  -- `rounds` rounds of the loop over the lines, from l_i on
  unfoldable pub load_lines :
      ℕ → ℕ → ℕ → ℕ → ℕ → ℕ → List (OlKey × OlVal F) → Draw (List (OlKey × OlVal F))
  load_lines o_entry_d w_i d_i o_i zero l_i lines = pure lines
  load_lines o_entry_d w_i d_i o_i (suc rounds) l_i lines = do
    v_ol ← load_line o_entry_d (ol_key w_i d_i o_i l_i)
    load_lines o_entry_d w_i d_i o_i rounds (suc l_i) (emplace (ol_key w_i d_i o_i l_i) v_ol lines)

  -- a round of the loop over the orders of a district, with the customer of the order
  unfoldable pub load_one : ℕ → ℕ → ℕ → ℕ → OrderMaps F → Draw (OrderMaps F)
  load_one c_id w_i d_i o_i maps = do
    let ts = suc (maps.ts) % uint32_mod
    let k_o = o_key w_i d_i o_i
    carrier ← draw_carrier (ltb k_o.o_id first_pending)
    ol_cnt ← random_number 5 15
    lines ← load_lines ts w_i d_i o_i ol_cnt 1 maps.temp_ol_map
    pure (with_order w_i d_i o_i (order_of ts c_id carrier ol_cnt) lines maps)

  unfoldable pub load_orders : Array ℕ → ℕ → ℕ → ℕ → ℕ → OrderMaps F → Draw (OrderMaps F)
  load_orders c_ids w_i d_i zero o_i maps = pure maps
  load_orders c_ids w_i d_i (suc rounds) o_i maps = do
    c_id ← λ seed. Memory.◌>>=◌ (read c_ids (sub_size o_i 1)) (λ c. done (c, seed))
    maps' ← load_one c_id w_i d_i o_i maps
    load_orders c_ids w_i d_i rounds (suc o_i) maps'

  module _ (shuffle : Array ℕ → Array ℕ) where
    unfoldable pub load_districts : ℕ → ℕ → ℕ → OrderMaps F → Draw (OrderMaps F)
    load_districts w_i zero d_i maps = pure maps
    load_districts w_i (suc rounds) d_i maps = do
      maps' ← load_orders (shuffle customer_ids) w_i d_i num_customer_per_district 1 maps
      load_districts w_i rounds (suc d_i) maps'

    unfoldable pub load_warehouses : ℕ → ℕ → ℕ → OrderMaps F → Draw (OrderMaps F)
    load_warehouses districts zero w_i maps = pure maps
    load_warehouses districts (suc rounds) w_i maps = do
      maps' ← load_districts w_i districts 1 maps
      load_warehouses districts rounds (suc w_i) maps'

    -- what it leaves in the maps; the seed of its generator is not used again
    unfoldable pub load_order : Settings → ℕ → Run (OrderMaps F)
    load_order set seed =
        Memory.◌>>=◌
          (load_warehouses set.num_district_per_warehouse set.warehouse_num 1 no_orders
            (set_seed0 seed))
          (λ r. done (r.0))
