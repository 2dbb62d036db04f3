-- ===== src/Tpcc/NewOrderDraws.antt =====
-- benchmark/real_world/tpcc.cpp `txn_new_order`: what the transaction draws before it reads a table.
use sidle_baselines.Base.{
  ℕ, zero, suc, Bool, true, false, ◌||◌, ◌&&◌, List, [], ◌∷◌, ltb, ◌==◌, if◌then◌else◌,
}
use sidle_baselines.Memory.{fault, out_of_fuel}
use sidle_baselines.Random.FastRandom.{Draw, ◌>>=◌, pure}
use sidle_baselines.Random.Draws.{random_number, get_customer_id, get_item_id}

-- one of the item_ids, supplier_warehouse_ids and order_quantities
pub record Line : Type 0 where
  pub item_id : ℕ
  pub supplier_warehouse_id : ℕ
  pub order_quantity : ℕ

pub record NewOrderDraw : Type 0 where
  pub district_id : ℕ
  pub customer_id : ℕ
  pub lines : List Line
  pub all_local : Bool

-- The globals that the command line sets.
pub record Settings : Type 0 where
  pub warehouse_num : ℕ
  pub num_district_per_warehouse : ℕ
  pub g_new_order_remote_item_pct : ℕ
  pub g_uniform_item_dist : Bool

-- the `do while` that draws another warehouse, for `fuel` rounds
unfoldable pub other_warehouse : ℕ → ℕ → ℕ → Draw ℕ
other_warehouse zero warehouse_num warehouse_id = λ seed. fault out_of_fuel
other_warehouse (suc fuel) warehouse_num warehouse_id = do
  w ← random_number 1 warehouse_num
  elim (w == warehouse_id) [
    | true ↦ other_warehouse fuel warehouse_num warehouse_id
    | false ↦ pure w
  ]

module _ (set : Settings) (fuel warehouse_id : ℕ) where
  unfoldable pub supplier : ℕ → Draw ℕ
  supplier percent =
      if ltb set.g_new_order_remote_item_pct percent || (set.warehouse_num == 1)
      then pure warehouse_id
      else other_warehouse fuel set.warehouse_num warehouse_id

  -- a round of the loop over the items, with whether the line is local
  unfoldable pub draw_line : Draw (Line × Bool)
  draw_line = do
    item ← get_item_id set.g_uniform_item_dist
    percent ← random_number 1 100
    w ← supplier percent
    quantity ← random_number 1 10
    pure (
      record { item_id = item; supplier_warehouse_id = w; order_quantity = quantity },
      ltb set.g_new_order_remote_item_pct percent || (set.warehouse_num == 1),
    )

  unfoldable pub draw_lines : ℕ → Draw (List Line × Bool)
  draw_lines zero = pure ([], true)
  draw_lines (suc n) = do l ← draw_line; rest ← draw_lines n; pure (l.0 ∷ rest.0, l.1 && rest.1)

  unfoldable pub draw_new_order : Draw NewOrderDraw
  draw_new_order = do
    district ← random_number 1 set.num_district_per_warehouse
    customer ← get_customer_id
    num_items ← random_number 5 15
    drawn ← draw_lines num_items
    pure (record {
      district_id = district;
      customer_id = customer;
      lines = drawn.0;
      all_local = drawn.1;
    })
