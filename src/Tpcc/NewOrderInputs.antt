-- ===== src/Tpcc/NewOrderInputs.antt =====
-- benchmark/real_world/tpcc.cpp `txn_new_order`: what its draws are, with one warehouse.
use sidle_baselines.Base.{
  ℕ, zero, suc, ◌≤◌, ◌<◌, ◌^◌, ◌≡◌, refl, ap, ap, true, ◌||◌, List, [], ◌∷◌, length, ltb, ◌==◌,
  arith,
}
use sidle_baselines.Memory.{done}
use sidle_baselines.Random.Draws.{num_item, num_customer_per_district}
use sidle_baselines.Random.Bounds.{random_number_bounds, get_customer_id_bounds, get_item_id_bounds}
use sidle_baselines.Tpcc.NewOrderDraws.{
  Line, NewOrderDraw, Settings, supplier, draw_line, draw_lines, draw_new_order,
}

-- A line that the warehouse supplies itself, of 1 to 10 pieces of an item.
pub record IsLocalLine (warehouse_id : ℕ) (line : Line) : Type 0 where
  pub item_pos : 1 ≤ line.item_id
  pub item_le : line.item_id ≤ num_item
  pub supplied : line.supplier_warehouse_id ≡ warehouse_id
  pub quantity_pos : 1 ≤ line.order_quantity
  pub quantity_le : line.order_quantity ≤ 10

abbrev pub AreLocalLines : ℕ → List Line → Type 0
AreLocalLines warehouse_id [] = Unit
AreLocalLines warehouse_id (line ∷ lines) =
    IsLocalLine warehouse_id line × AreLocalLines warehouse_id lines

module _ (set : Settings) (fuel warehouse_id : ℕ) (one : set.warehouse_num ≡ 1) where
  draw_line_lem :
      (seed : ℕ)
      → (line : Line) × (s : ℕ) × (draw_line set fuel warehouse_id seed ≡ done ((line, true), s))
        × IsLocalLine warehouse_id line
  unfolding draw_line supplier
  draw_line_lem seed =
      let (item, s, e, item_pos, item_le, _) = get_item_id_bounds set.g_uniform_item_dist seed in
      let (percent, t, e', _, _, _) = random_number_bounds 1 100 s (omega arith) (omega arith) in
      let (quantity, u, e'', pos, le, _) =
        random_number_bounds 1 10 t (omega arith) (omega arith) in
      let local : (ltb set.g_new_order_remote_item_pct percent || (set.warehouse_num == 1)) ≡ true =
        ground (arith, one) in
      (
        record { item_id = item; supplier_warehouse_id = warehouse_id; order_quantity = quantity },
        u,
        rw (e, e', local, e''),
        record {
          item_pos = item_pos;
          item_le = item_le;
          supplied = refl;
          quantity_pos = pos;
          quantity_le = le;
        },
      )

  draw_lines_lem :
      (n seed : ℕ)
      → (lines : List Line) × (s : ℕ) × (draw_lines set fuel warehouse_id n seed
          ≡ done ((lines, true), s))
        × (length lines ≡ n)
        × AreLocalLines warehouse_id lines
  unfolding draw_lines
  draw_lines_lem zero seed = ([], seed, refl, refl, tt)
  draw_lines_lem (suc n) seed =
      let (line, s, e, local) = draw_line_lem seed in
      let (lines, t, e', long, locals) = draw_lines_lem n s in
      (line ∷ lines, t, rw (e, e'), ap suc long, (local, locals))

  -- With one warehouse, and from 1 to 2^31 - 1 districts: from any seed `txn_new_order` draws a
  -- district and a customer that exist, and 5 to 15 lines, each of 1 to 10 pieces of an item that
  -- exists, which the warehouse itself supplies. The order is all local.
  pub draw_new_order_bounds :
      1 ≤ set.num_district_per_warehouse
      → set.num_district_per_warehouse < 2 ^ 31
      → (seed : ℕ)
      → (draw : NewOrderDraw) × (s : ℕ) × (draw_new_order set fuel warehouse_id seed
          ≡ done (draw, s))
        × (1 ≤ draw.district_id)
        × (draw.district_id ≤ set.num_district_per_warehouse)
        × (1 ≤ draw.customer_id)
        × (draw.customer_id ≤ num_customer_per_district)
        × (5 ≤ length draw.lines)
        × (length draw.lines ≤ 15)
        × AreLocalLines warehouse_id draw.lines
        × (draw.all_local ≡ true)
  unfolding draw_new_order
  draw_new_order_bounds some_district few seed =
      let (district, s, e, d_pos, d_le, _) =
        random_number_bounds 1 set.num_district_per_warehouse seed some_district few in
      let (customer, t, e', c_pos, c_le, _) = get_customer_id_bounds s in
      let (n, u, e'', n_lo, n_hi, _) = random_number_bounds 5 15 t (omega arith) (omega arith) in
      let (lines, v, e''', long, locals) = draw_lines_lem n u in
      (
        record { district_id = district; customer_id = customer; lines = lines; all_local = true },
        v,
        rw (e, e', e'', e'''),
        d_pos,
        d_le,
        c_pos,
        c_le,
        omega (arith, long),
        omega (arith, long),
        locals,
        refl,
      )
