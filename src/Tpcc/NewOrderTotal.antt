-- ===== src/Tpcc/NewOrderTotal.antt =====
-- benchmark/real_world/tpcc.cpp `txn_new_order`, the draws and the writes together, with one warehouse.
use sidle_baselines.Base.{ℕ, ◌≤◌, ◌<◌, ◌^◌, ◌≡◌, some, List, [], ◌∷◌, length, arith}
use sidle_baselines.Memory.{done}
use sidle_baselines.Bytes.{little}
use sidle_baselines.Keys.Structs.{o_key, o_struct, i_key, i_struct}
use sidle_baselines.Random.Draws.{num_item, num_customer_per_district}
use sidle_baselines.Masstree.{MassTree, IsMap, get}
use sidle_baselines.Tpcc.Values.{FloatOps, IVal}
use sidle_baselines.Tpcc.Store.{Store, Unassigned}
use sidle_baselines.Tpcc.NewOrderDraws.{Line, NewOrderDraw, Settings, draw_new_order}
use sidle_baselines.Tpcc.NewOrder.{txn_new_order}
use sidle_baselines.Tpcc.NewOrderInputs.{AreLocalLines, draw_new_order_bounds}
use sidle_baselines.Tpcc.Lines.{HasItems, HasOrderLines}
use sidle_baselines.Tpcc.NewOrderEffect.{HasPlaces, NamesOrder, order_id, order_row}
use sidle_baselines.Tpcc.NewOrderOutcome.{run_new_order-commits}

module _ {Tree : Type 0 → Type 0} {F : Type 0} (m : MassTree Tree) (items : Tree (IVal F))
    (stocked : (i : ℕ)
      → 1 ≤ i
      → i ≤ num_item
      → (v : IVal F) × (get m little items (i_key i) ≡ some v)) where
  HasItems-local : (w : ℕ) (lines : List Line) → AreLocalLines w lines → HasItems m items lines
  HasItems-local w [] local = tt
  HasItems-local w (line ∷ lines) local =
      (stocked line.item_id local.0.item_pos local.0.item_le, HasItems-local w lines local.1)

module _ {Tree : Type 0 → Type 0} {F : Type 0} (m : MassTree Tree) (map : IsMap m)
    (float : FloatOps F) (blank : Unassigned F) (set : Settings) (one : set.warehouse_num ≡ 1)
    (some_district : 1 ≤ set.num_district_per_warehouse)
    (few_districts : set.num_district_per_warehouse < 2 ^ 31) (w : ℕ) (store : Store Tree F)
    (places : (d c : ℕ)
      → 1 ≤ d
      → d ≤ set.num_district_per_warehouse
      → 1 ≤ c
      → c ≤ num_customer_per_district
      → HasPlaces store w d c)
    (stocked : (i : ℕ)
      → 1 ≤ i
      → i ≤ num_item
      → (v : IVal F) × (get m little store.table_item (i_key i) ≡ some v)) where
  -- On tables that are maps, with one warehouse of a number below 2^16, and from 1 to 255 districts,
  -- where each district and each of 3000 customers has its places in the two vectors, and each of
  -- the 100000 items its row: from any seed, and with no round of retries, `txn_new_order` commits
  -- the order that it draws. The order has its row, each of its 5 to 15 lines has its own, and both
  -- vectors name the order.
  pub txn_new_order-commits :
      (seed : ℕ)
      → (draw : NewOrderDraw) × (s : ℕ) × (total : F) × (after : Store Tree F) × (draw_new_order set
            0 w seed
          ≡ done (draw, s))
        × (txn_new_order m float blank set 0 w store seed ≡ done ((some total, after), s))
        × (5 ≤ length draw.lines)
        × (length draw.lines ≤ 15)
        × (get m little after.table_order
              (o_key w draw.district_id (order_id m float blank store w draw))
            ≡ some (order_row m float blank store w draw))
        × HasOrderLines m store.table_item float blank w draw.district_id
            (order_id m float blank store w draw)
            1
            draw.lines
            after.table_order_line
        × NamesOrder m float blank store w draw after
  unfolding txn_new_order
  txn_new_order-commits seed =
      let (draw, s, e, d_pos, d_le, c_pos, c_le, lo, hi, local, _) =
        draw_new_order_bounds set 0 w one some_district few_districts seed in
      let (total, after, e', _, _, order, lines, names) =
        run_new_order-commits m map float blank store w draw
          (places draw.district_id draw.customer_id d_pos d_le c_pos c_le)
          (HasItems-local m store.table_item stocked w draw.lines local) (omega (arith, hi)) in
      (draw, s, total, after, e, rw (e, e'), lo, hi, order, lines, names)
