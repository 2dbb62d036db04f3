-- ===== src/Tpcc/Prepare.antt =====
-- benchmark/real_world/tpcc_loader.h `prepare_kvs`: the table of the orders, and what the workers start from.
use sidle_baselines.Base.{ℕ, ◌+◌, ◌^◌, ◌≤◌, ◌<◌, ◌≡◌, refl, some, none, List, arith}
use sidle_baselines.Memory.{Run, done, ◌>>=◌, Array}
use sidle_baselines.Bytes.{little}
use sidle_baselines.Random.FastRandom.{set_seed0}
use sidle_baselines.Random.Draws.{num_customer_per_district}
use sidle_baselines.Keys.Structs.{OKey, o_key, o_struct}
use sidle_baselines.Masstree.{MassTree, IsMap, get}
use sidle_baselines.Tpcc.Values.{FloatOps, OVal}
use sidle_baselines.Tpcc.Store.{Store}
use sidle_baselines.Tpcc.NewOrderDraws.{Settings}
use sidle_baselines.Tpcc.Sound.{IsSound}
use sidle_baselines.Tpcc.HackInfo.{
  fresh_pending, fresh_latest, create_hack_info, create_hack_info-IsShaped,
}
use sidle_baselines.Tpcc.Loader.{load_masstree_kv_data}
use sidle_baselines.Tpcc.LoadOrders.{no_orders, load_order}
use sidle_baselines.Tpcc.Loaded.{load_masstree_kv_data-get}
use sidle_baselines.Tpcc.OrdersFilled.{place, IsFilled, no_rows-IsFilled}
use sidle_baselines.Tpcc.OrdersLoaded.{load_warehouses-IsFilled}

module _ {Tree : Type 0 → Type 0} {F : Type 0} (m : MassTree Tree) (float : FloatOps F)
    (shuffle : Array ℕ → Array ℕ) (set : Settings) where
  -- the map that `load_order` is given
  unfoldable pub load_order_kvmap : ℕ → Run (List (OKey × OVal))
  load_order_kvmap seed = do maps ← load_order float shuffle set seed; done (maps.kvmap)

  unfoldable pub load_table_order : Tree OVal → Run (Tree OVal)
  load_table_order created = load_masstree_kv_data m little created load_order_kvmap 2343352

  module _ (map : IsMap m) (keeps : (ids : Array ℕ) → (shuffle ids).size ≡ ids.size)
      (few_warehouses : set.warehouse_num < 2 ^ 16)
      (few_districts : set.num_district_per_warehouse < 2 ^ 8) where
    load_order_kvmap-IsFilled :
        (seed : ℕ)
        → (kvmap : List (OKey × OVal)) × (load_order_kvmap seed ≡ done kvmap)
          × IsFilled set.num_district_per_warehouse (place (1 + set.warehouse_num) 1 1) kvmap
    unfolding load_order_kvmap load_order
    load_order_kvmap-IsFilled seed =
        let (maps, s, loaded, filled) =
          load_warehouses-IsFilled float set.num_district_per_warehouse few_districts shuffle keeps
            set.warehouse_num 1 no_orders (set_seed0 seed) (omega arith)
            (no_rows-IsFilled set.num_district_per_warehouse few_districts) in
        (maps.kvmap, rw loaded refl, filled)

    -- Let the shuffle keep the length of a vector, the tree be a map and hold nothing when it is created, and
    -- the warehouses and districts fit the fields of a key. Then the table of the orders is loaded: no read of
    -- the customers, no draw and no insertion fails. In the table each warehouse and district has orders 1 to
    -- 3000.
    pub load_table_order-get :
        (created : Tree OVal)
        → ((k : OKey) → get m little created k ≡ none)
        → (table : Tree OVal) × (load_table_order created ≡ done table)
          × ((w d o : ℕ)
              → 1 ≤ w
              → w ≤ set.warehouse_num
              → 1 ≤ d
              → d ≤ set.num_district_per_warehouse
              → 1 ≤ o
              → o ≤ num_customer_per_district
              → (v_o : OVal) × (get m little table (o_key w d o) ≡ some v_o))
    unfolding load_table_order
    load_table_order-get created empty =
        let (kvmap, loaded, filled) = load_order_kvmap-IsFilled 2343352 in
        let (table, ends, found, _) =
          load_masstree_kv_data-get m map (λ a b. omega arith) created load_order_kvmap 2343352
            kvmap empty loaded filled.fit filled.up in
        (
          table,
          ends,
          λ w d o w_lo w_hi d_lo d_hi o_lo o_hi.
              let (v_o, row) =
                filled.there w d o w_lo (omega arith) d_lo d_hi o_lo o_hi (omega arith) in
              (v_o, found (o_key w d o) v_o row),
        )

    -- Let the shuffle keep the length of a vector, the tree be a map and hold nothing when it is created, and
    -- let there be a warehouse and a district or more, few enough to fit the fields of a key. Then the vectors
    -- are created and the table of the orders is loaded. Whatever the other tables hold, with these the
    -- vectors have a place for each warehouse, district and customer, and where a district's newest new
    -- order has a row, its order has one.
    pub prepared-IsSound :
        (created : Tree OVal)
        → ((k : OKey) → get m little created k ≡ none)
        → 1 ≤ set.warehouse_num
        → 1 ≤ set.num_district_per_warehouse
        → (store : Store Tree F)
        → (pending : Array (Array ℕ)) × (latest : Array (Array (Array ℕ))) × (table : Tree OVal)
          × (create_hack_info set ≡ done (pending, latest))
          × (load_table_order created ≡ done table)
          × IsSound m set.warehouse_num set.num_district_per_warehouse (record store {
            pending_new_order_per_dis = pending;
            latest_order_id_per_customer = latest;
            table_order = table;
          })
    prepared-IsSound created empty some_warehouse some_district store =
        let (table, ends, rows) = load_table_order-get created empty in
        let (hack, shape) = create_hack_info-IsShaped set some_warehouse some_district in
        (
          fresh_pending set,
          fresh_latest set,
          table,
          hack,
          ends,
          record {
            shape = shape;
            orders = λ w d w_lo w_hi d_lo d_hi v_no new_order.
                rows w d 3000 w_lo w_hi d_lo d_hi (omega arith) (omega arith);
          },
        )
