-- ===== src/Tpcc/StockLevel.antt =====
-- benchmark/real_world/tpcc.cpp `txn_stock_level`. The model returns `fake_size`, which the code drops.
use sidle_baselines.Base.{
  ℕ, ◌+◌, ◌-◌, ◌*◌, ◌^◌, ◌≤◌, ◌<◌, ◌≡◌, ◌∙◌, ap, Bool, Bool-cases, inl, inr, List, [], ◌∷◌, length,
  leb, ltb, if◌then◌else◌, arith,
}
use sidle_baselines.Memory.{Run, done, ◌>>=◌, add_size, size_mod}
use sidle_baselines.Bytes.{little}
use sidle_baselines.Keys.Structs.{d_key, d_struct, s_key, s_struct, OlKey, ol_key, ol_struct}
use sidle_baselines.Random.Draws.{random_number}
use sidle_baselines.Random.Bounds.{random_number_bounds}
use sidle_baselines.Masstree.{MassTree, IsScanned, get}
use sidle_baselines.Tpcc.Values.{SVal, OlVal}
use sidle_baselines.Tpcc.Store.{Store, Unassigned, or_unassigned}
use sidle_baselines.Tpcc.NewOrderDraws.{Settings}
use sidle_baselines.Tpcc.LineScan.{scan_lines, scan_lines-returns}

-- the order that is twenty before the current one, or 0
unfoldable pub lower_order : ℕ → ℕ
lower_order cur_next_o_id = if leb 20 cur_next_o_id then cur_next_o_id - 20 else 0

module _ {Tree : Type 0 → Type 0} {F : Type 0} (m : MassTree Tree) (blank : Unassigned F)
    (warehouse_id : ℕ) where
  -- whether the stock of the line's item is below the threshold
  unfoldable pub is_low : ℕ → Tree (SVal F) → OlVal F → Bool
  is_low threshold stock v_ol =
      let v_s = or_unassigned (get m little stock (s_key warehouse_id v_ol.ol_i_id)) blank.v_s in
      ltb v_s.s_quantity threshold

  -- the loop over the scanned lines, which counts in `fake_size`
  unfoldable pub count_low : ℕ → Tree (SVal F) → ℕ → List (OlKey × OlVal F) → ℕ
  unfolding is_low
  count_low threshold stock fake_size [] = fake_size
  count_low threshold stock fake_size ((k, v) ∷ kvs_ol) =
      count_low threshold stock
        (if is_low threshold stock v then add_size fake_size 1 else fake_size) kvs_ol

  -- the transaction once it has drawn
  unfoldable pub run_stock_level : ℕ → ℕ → Store Tree F → Run ℕ
  unfolding count_low lower_order
  run_stock_level district_id threshold store = do
    let v_d =
        or_unassigned (get m little store.table_district (d_key warehouse_id district_id)) blank.v_d
    let lower = lower_order v_d.d_next_o_id
    kvs_ol ← scan_lines m store (ol_key warehouse_id district_id lower 0) (10 * 20)
    done (count_low threshold store.table_stock 0 kvs_ol)

  -- `txn_stock_level`, with the seed of the worker's generator
  unfoldable pub txn_stock_level : Settings → Store Tree F → ℕ → Run (ℕ × ℕ)
  unfolding run_stock_level
  txn_stock_level set store seed = do
    district ← random_number 1 set.num_district_per_warehouse seed
    threshold ← random_number 10 20 district.1
    low ← run_stock_level district.0 threshold.0 store
    done (low, threshold.1)

  -- the lines whose items are low in stock
  abbrev pub low_lines : ℕ → Tree (SVal F) → List (OlKey × OlVal F) → List (OlKey × OlVal F)
  low_lines threshold stock [] = []
  low_lines threshold stock ((k, v) ∷ kvs) =
      let rest = low_lines threshold stock kvs in
      if is_low threshold stock v then (k, v) ∷ rest else rest

  module _ (threshold : ℕ) (stock : Tree (SVal F)) where
    count_low-length :
        (kvs : List (OlKey × OlVal F)) (n : ℕ)
        → n + length kvs < size_mod
        → (count_low threshold stock n kvs ≡ n + length (low_lines threshold stock kvs))
          × (length (low_lines threshold stock kvs) ≤ length kvs)
    unfolding count_low
    count_low-length [] n small = (omega arith, omega arith)
    count_low-length ((k, v) ∷ kvs) n small = elim (Bool-cases (is_low threshold stock v)) [
      | inl low ↦
          let next : add_size n 1 ≡ n + 1 = omega arith in
          let (e, le) = count_low-length kvs (n + 1) (omega arith) in
          (rw (low, next) (e ∙ omega arith), rw low (omega (arith, le)))
      | inr enough ↦
          let (e, le) = count_low-length kvs n (omega arith) in
          (rw enough e, rw enough (omega (arith, le)))
    ]

  module _ (store : Store Tree F) where
    -- the key of the line from which on a district's lines are scanned
    abbrev pub lower_key : ℕ → OlKey
    lower_key d =
        let v_d =
          or_unassigned (get m little store.table_district (d_key warehouse_id d)) blank.v_d in
        ol_key warehouse_id d (lower_order v_d.d_next_o_id) 0

    run_stock_level-count :
        (d threshold : ℕ) (kvs : List (OlKey × OlVal F))
        → scan_lines m store (lower_key d) (10 * 20) ≡ done kvs
        → length kvs ≤ 200
        → run_stock_level d threshold store
          ≡ done (length (low_lines threshold store.table_stock kvs))
    unfolding run_stock_level
    run_stock_level-count d threshold kvs found few =
        let (e, _) = count_low-length threshold store.table_stock kvs 0 (omega arith) in
        rw found (ap done (e ∙ omega arith))

    -- On tables that are scanned in order, with 1 to 2^31 - 1 districts, `txn_stock_level` returns from
    -- any seed.
    pub txn_stock_level-returns :
        (scanned : IsScanned m) (set : Settings)
        → 1 ≤ set.num_district_per_warehouse
        → set.num_district_per_warehouse < 2 ^ 31
        → (seed : ℕ) → (low s : ℕ) × (txn_stock_level set store seed ≡ done (low, s))
    unfolding txn_stock_level
    txn_stock_level-returns scanned set some_district few seed =
        let (d, s, e, _, _, _) =
          random_number_bounds 1 set.num_district_per_warehouse seed some_district few in
        let (threshold, t, e', _, _, _) =
          random_number_bounds 10 20 s (omega arith) (omega arith) in
        let (kvs, found, short, _) =
          scan_lines-returns m scanned store (lower_key d) 200 (omega arith) in
        let counted = run_stock_level-count d threshold kvs found short in
        (length (low_lines threshold store.table_stock kvs), t, rw (e, e', counted))
