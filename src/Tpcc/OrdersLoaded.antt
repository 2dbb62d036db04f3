-- ===== src/Tpcc/OrdersLoaded.antt =====
-- benchmark/real_world/tpcc_loader.h `load_order`: the orders that the tables start with.
use sidle_baselines.Base.{
  ℕ, zero, suc, ◌+◌, ◌%◌, ◌^◌, ◌≤◌, ◌<◌, ◌≡◌, refl, sym, Bool, true, false, List, ltb, arith,
}
use std.Path.{subst}
use sidle_baselines.Memory.{done, Array, read_lem, sub_size}
use sidle_baselines.Random.Draws.{num_customer_per_district}
use sidle_baselines.Random.Bounds.{random_number_bounds}
use sidle_baselines.Keys.Structs.{o_key, o_struct, OlKey, ol_key, ol_struct}
use sidle_baselines.Tpcc.Values.{FloatOps, OVal, OlVal}
use sidle_baselines.Tpcc.Store.{uint32_mod}
use sidle_baselines.Tpcc.LoadOrders.{
  emplace, OrderMaps, first_pending, customer_ids, draw_amount, load_line, load_lines, line_row,
  with_order, order_of, draw_carrier, load_one, load_orders, load_districts, load_warehouses,
}
use sidle_baselines.Tpcc.OrdersFilled.{
  place, IsFilled, IsFilled-emplace, IsFilled-next_district, IsFilled-next_warehouse,
}

draw_carrier-done :
    (early : Bool) (seed : ℕ) → (v : ℕ) × (s : ℕ) × (draw_carrier early seed ≡ done (v, s))
unfolding draw_carrier
draw_carrier-done true seed =
    let (v, s, drawn, _, _, _) = random_number_bounds 1 10 seed (omega arith) (omega arith) in
    (v, s, drawn)
draw_carrier-done false seed = (0, seed, refl)

module _ {F : Type 0} (float : FloatOps F) where
  draw_amount-done :
      (early : Bool) (seed : ℕ) → (v : F) × (s : ℕ) × (draw_amount float early seed ≡ done (v, s))
  unfolding draw_amount
  draw_amount-done true seed = (float.of_int 0, seed, refl)
  draw_amount-done false seed =
      let (v, s, drawn, _, _, _) = random_number_bounds 1 999999 seed (omega arith) (omega arith) in
      (float.of_cents v, s, rw drawn refl)

  load_line-done :
      (entry : ℕ) (k : OlKey) (seed : ℕ)
      → (v : OlVal F) × (s : ℕ) × (load_line float entry k seed ≡ done (v, s))
  unfolding load_line
  load_line-done entry k seed =
      let (item, s, drawn, _, _, _) =
        random_number_bounds 1 100000 seed (omega arith) (omega arith) in
      let (amount, s', paid) = draw_amount-done (ltb k.ol_o_id first_pending) s in
      (line_row entry k item amount, s', rw (drawn, paid) refl)

  load_lines-done :
      (entry w d o n l : ℕ) (lines : List (OlKey × OlVal F)) (seed : ℕ)
      → (lines' : List (OlKey × OlVal F)) × (s : ℕ) × (load_lines float entry w d o n l lines seed
          ≡ done (lines', s))
  unfolding load_lines
  load_lines-done entry w d o zero l lines seed = (lines, seed, refl)
  load_lines-done entry w d o (suc n) l lines seed =
      let (v, s, drawn) = load_line-done entry (ol_key w d o l) seed in
      let (lines', s', rest) =
        load_lines-done entry w d o n (suc l) (emplace (ol_key w d o l) v lines) s in
      (lines', s', rw (drawn, rest) refl)

  load_one-done :
      (c w d o : ℕ) (maps : OrderMaps F) (seed : ℕ)
      → (maps' : OrderMaps F) × (s : ℕ) × (v_o : OVal) × (load_one float c w d o maps seed
          ≡ done (maps', s))
        × (maps'.kvmap ≡ emplace (o_key w d o) v_o maps.kvmap)
  unfolding load_one
  load_one-done c w d o maps seed =
      let ts : ℕ = suc (maps.ts) % uint32_mod in
      let (carrier, s, carried) = draw_carrier-done (ltb (o % 2 ^ 32) first_pending) seed in
      let (cnt, s', counted, _, _, _) = random_number_bounds 5 15 s (omega arith) (omega arith) in
      let (lines, s'', lined) = load_lines-done ts w d o cnt 1 maps.temp_ol_map s' in
      let v_o : OVal = order_of ts c carrier cnt in
      (with_order w d o v_o lines maps, s'', v_o, rw (carried, counted, lined) refl, refl)

  module _ (districts : ℕ) (few : districts < 2 ^ 8) where
    load_orders-IsFilled :
        (c_ids : Array ℕ) (w d rounds o : ℕ) (maps : OrderMaps F) (seed : ℕ)
        → num_customer_per_district ≤ c_ids.size
        → w < 2 ^ 16
        → d ≤ districts
        → 1 ≤ o
        → o + rounds ≡ suc num_customer_per_district
        → IsFilled districts (place w d o) maps.kvmap
        → (maps' : OrderMaps F) × (s : ℕ) × (load_orders float c_ids w d rounds o maps seed
            ≡ done (maps', s))
          × IsFilled districts (place w d (suc num_customer_per_district)) maps'.kvmap
    unfolding load_orders
    load_orders-IsFilled c_ids w d zero o maps seed size hw hd some_o at_end filled =
        let last : o ≡ suc num_customer_per_district = omega arith in
        (maps, seed, refl, subst (λ n. IsFilled districts (place w d n) maps.kvmap) last filled)
    load_orders-IsFilled c_ids w d (suc rounds) o maps seed size hw hd some_o at_end filled =
        let c : ℕ = c_ids.cell (sub_size o 1) in
        let reads = read_lem c_ids (sub_size o 1) (omega arith) in
        let (maps', s, v_o, one, kvmap) = load_one-done c w d o maps seed in
        let filled' : IsFilled districts (place w d (suc o)) maps'.kvmap =
          subst (IsFilled districts (place w d (suc o))) (sym kvmap)
            (IsFilled-emplace districts few w d o v_o maps.kvmap hw hd (omega arith) filled) in
        let (maps'', s', rest, all) =
          load_orders-IsFilled c_ids w d rounds (suc o) maps' s size hw hd (omega arith)
            (omega arith) filled' in
        (maps'', s', rw (reads, one, rest) refl, all)

    module _ (shuffle : Array ℕ → Array ℕ)
        (keeps : (ids : Array ℕ) → (shuffle ids).size ≡ ids.size) where
      load_districts-IsFilled :
          (w rounds d : ℕ) (maps : OrderMaps F) (seed : ℕ)
          → w < 2 ^ 16
          → d + rounds ≡ suc districts
          → IsFilled districts (place w d 1) maps.kvmap
          → (maps' : OrderMaps F) × (s : ℕ) × (load_districts float shuffle w rounds d maps seed
              ≡ done (maps', s))
            × IsFilled districts (place w (suc districts) 1) maps'.kvmap
      unfolding load_districts
      load_districts-IsFilled w zero d maps seed hw at_end filled =
          let last : d ≡ suc districts = omega arith in
          (maps, seed, refl, subst (λ n. IsFilled districts (place w n 1) maps.kvmap) last filled)
      load_districts-IsFilled w (suc rounds) d maps seed hw at_end filled =
          let hd : d ≤ districts = omega arith in
          let size = keeps customer_ids in
          let (maps', s, one, filled') =
            load_orders-IsFilled (shuffle customer_ids) w d num_customer_per_district 1 maps seed
              (omega arith) hw hd (omega arith) (omega arith) filled in
          let (maps'', s', rest, all) =
            load_districts-IsFilled w rounds (suc d) maps' s hw (omega arith)
              (IsFilled-next_district districts few w d maps'.kvmap hd filled') in
          (maps'', s', rw (one, rest) refl, all)

      pub load_warehouses-IsFilled :
          (rounds w : ℕ) (maps : OrderMaps F) (seed : ℕ)
          → w + rounds ≤ 2 ^ 16
          → IsFilled districts (place w 1 1) maps.kvmap
          → (maps' : OrderMaps F) × (s : ℕ) × (load_warehouses float shuffle districts rounds w maps
                seed
              ≡ done (maps', s))
            × IsFilled districts (place (w + rounds) 1 1) maps'.kvmap
      unfolding load_warehouses
      load_warehouses-IsFilled zero w maps seed few_w filled =
          let last : w ≡ w + 0 = omega arith in
          (maps, seed, refl, subst (λ n. IsFilled districts (place n 1 1) maps.kvmap) last filled)
      load_warehouses-IsFilled (suc rounds) w maps seed few_w filled =
          let (maps', s, one, filled') =
            load_districts-IsFilled w districts 1 maps seed (omega arith) (omega arith) filled in
          let (maps'', s', rest, all) =
            load_warehouses-IsFilled rounds (suc w) maps' s (omega arith)
              (IsFilled-next_warehouse districts few w maps'.kvmap filled') in
          let moved : suc w + rounds ≡ w + suc rounds = omega arith in
          (
            maps'',
            s',
            rw (one, rest) refl,
            subst (λ n. IsFilled districts (place n 1 1) maps''.kvmap) moved all,
          )
