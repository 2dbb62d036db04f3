-- ===== src/Tpcc/OrderStatus.antt =====
-- benchmark/real_world/tpcc.cpp `txn_order_status`. The customer is always drawn by number: the branch that
-- looks for one by the last name is under `if (false)`. The model returns the order lines that the code reads.
use sidle_baselines.Base.{ℕ, ◌-◌, ◌%◌, ◌∙◌, ◌≤◌, ◌<◌, ◌^◌, ◌≡◌, List, take, arith}
use sidle_baselines.Memory.{Run, done, ◌>>=◌}
use sidle_baselines.Bytes.{little}
use sidle_baselines.Keys.Packed.{to_str_key}
use sidle_baselines.Keys.Structs.{OlKey, ol_key, ol_struct}
use sidle_baselines.Keys.OrderLine.{ol_stored_key}
use sidle_baselines.Keys.StoredRows.{stored_rows, AllFit}
use sidle_baselines.Random.Draws.{random_number, get_customer_id, num_customer_per_district}
use sidle_baselines.Random.Bounds.{random_number_bounds, get_customer_id_bounds}
use sidle_baselines.Masstree.{MassTree, IsScanned}
use sidle_baselines.Tpcc.Values.{OlVal}
use sidle_baselines.Tpcc.Store.{Store, uint32_mod, read_triple}
use sidle_baselines.Tpcc.Places.{read_triple_lem}
use sidle_baselines.Tpcc.NewOrderDraws.{Settings}
use sidle_baselines.Tpcc.NewOrderEffect.{HasPlaces}
use sidle_baselines.Tpcc.LineRows.{lines_from}
use sidle_baselines.Tpcc.LineScan.{scan_lines, scan_lines-returns, scan_lines-lines_from}

module _ {Tree : Type 0 → Type 0} {F : Type 0} (m : MassTree Tree) where
  -- the transaction once it has drawn
  unfoldable pub run_order_status : ℕ → ℕ → ℕ → Store Tree F → Run (List (OlKey × OlVal F))
  unfolding read_triple
  run_order_status warehouse_id district_id customer_id store = do
    newest ← read_triple store.latest_order_id_per_customer warehouse_id district_id customer_id
    scan_lines m store (ol_key warehouse_id district_id (newest % uint32_mod) 0) 10

  module _ (set : Settings) (warehouse_id : ℕ) where
    -- `txn_order_status`, with the seed of the worker's generator
    unfoldable pub txn_order_status : Store Tree F → ℕ → Run (List (OlKey × OlVal F) × ℕ)
    unfolding run_order_status get_customer_id
    txn_order_status store seed = do
      district ← random_number 1 set.num_district_per_warehouse seed
      customer ← get_customer_id (district.1)
      kvs_ol ← run_order_status warehouse_id district.0 customer.0 store
      done (kvs_ol, customer.1)

  module _ (scanned : IsScanned m) (store : Store Tree F) (w d c : ℕ)
      (places : HasPlaces store w d c) where
    -- the order that the vector names as the customer's latest
    abbrev pub latest_order : ℕ
    latest_order =
        ((store.latest_order_id_per_customer.cell (w - 1)).cell (d - 1)).cell (c - 1) % uint32_mod

    run_order_status-scan :
        run_order_status w d c store ≡ scan_lines m store (ol_key w d latest_order 0) 10
    unfolding run_order_status
    run_order_status-scan =
        let read =
          read_triple_lem store.latest_order_id_per_customer w d c places.w_pos places.latest_w
            (omega (arith, places.w_fits)) places.d_pos places.latest_d
            (omega (arith, places.d_fits)) places.c_pos places.latest_c
            (omega (arith, places.c_fits)) in
        rw read

    -- Where the order lines are lines whose keys fit, in ascending order, and warehouse, district and
    -- customer have their places in the vector: the status of the customer's latest order is read from
    -- the first ten lines from the order's line 0 on, or from all that there are.
    pub run_order_status-lines_from :
        (lines : List (OlKey × OlVal F))
        → scanned.rows store.table_order_line ≡ stored_rows (ol_stored_key little) lines
        → AllFit (ol_stored_key little) lines
        → run_order_status w d c store
          ≡ done (take 10 (lines_from (to_str_key little (ol_key w d latest_order 0)) lines))
    run_order_status-lines_from lines are fit =
        run_order_status-scan
        ∙ scan_lines-lines_from m scanned store lines (ol_key w d latest_order 0) 10 are fit
            (omega arith)

    run_order_status-returns :
        (kvs : List (OlKey × OlVal F)) × (run_order_status w d c store ≡ done kvs)
    run_order_status-returns =
        let (kvs, e, _, _) =
          scan_lines-returns m scanned store (ol_key w d latest_order 0) 10 (omega arith) in
        (kvs, run_order_status-scan ∙ e)

  -- On tables that are scanned in order, with 1 to 255 districts, where each and its 3000 customers have
  -- their places: `txn_order_status` returns from any seed.
  pub txn_order_status-returns :
      (scanned : IsScanned m) (set : Settings) (w : ℕ) (store : Store Tree F)
      → 1 ≤ set.num_district_per_warehouse
      → set.num_district_per_warehouse < 2 ^ 8
      → ((d c : ℕ)
          → 1 ≤ d
          → d ≤ set.num_district_per_warehouse
          → 1 ≤ c
          → c ≤ num_customer_per_district
          → HasPlaces store w d c)
      → (seed : ℕ)
      → (kvs : List (OlKey × OlVal F)) × (s : ℕ) × (txn_order_status set w store seed
          ≡ done (kvs, s))
  unfolding txn_order_status
  txn_order_status-returns scanned set w store some_district few places seed =
      let (d, s, e, d_lo, d_hi, _) =
        random_number_bounds 1 set.num_district_per_warehouse seed some_district (omega arith) in
      let (c, t, e', c_lo, c_hi, _) = get_customer_id_bounds s in
      let (kvs, e'') =
        run_order_status-returns scanned store w d c (places d c d_lo d_hi c_lo c_hi) in
      (kvs, t, rw (e, e', e''))
