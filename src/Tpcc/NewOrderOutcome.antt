-- ===== src/Tpcc/NewOrderOutcome.antt =====
-- benchmark/real_world/tpcc.cpp `txn_new_order`: a transaction that commits, and one that aborts.
use sidle_baselines.Base.{
  ℕ, ◌+◌, ◌-◌, ◌%◌, ◌<◌, ◌^◌, ◌≡◌, refl, ap, ◌∙◌, Bool, true, false, none, some, List, [], ◌∷◌,
  ◌++◌, length, arith,
}
use sidle_baselines.Memory.{done}
use sidle_baselines.Bytes.{little}
use sidle_baselines.Keys.Structs.{
  w_key, w_struct, c_key, c_struct, d_key, d_struct, no_key, no_struct, o_key, o_struct, i_key,
  i_struct,
}
use sidle_baselines.Masstree.{MassTree, IsMap, get}
use sidle_baselines.Masstree.WrapperMap.{insert-get, remove-get}
use sidle_baselines.Tpcc.Values.{FloatOps, DVal}
use sidle_baselines.Tpcc.Store.{Store, Unassigned, or_unassigned, uint32_mod}
use sidle_baselines.Tpcc.NewOrderDraws.{Line, NewOrderDraw}
use sidle_baselines.Tpcc.NewOrder.{
  LineTables, read_district, open_order, abort_order, close_order, total_amount, run_new_order,
  place_lines,
}
use sidle_baselines.Tpcc.Lines.{
  HasItems, HasOrderLines, place_lines-order_lines, place_lines-missing,
}
use sidle_baselines.Tpcc.NewOrderEffect.{HasPlaces, NamesOrder, order_id, order_row, open_order_lem}

counted_back :
    {F : Type 0} (v : DVal F)
    → v.d_next_o_id < uint32_mod
    → record v { d_next_o_id = ((v.d_next_o_id + 1) % uint32_mod + uint32_mod - 1) % uint32_mod }
      ≡ v
counted_back v fits =
    let same : ((v.d_next_o_id + 1) % uint32_mod + uint32_mod - 1) % uint32_mod ≡ v.d_next_o_id =
      omega arith in
    ap (λ n. record v { d_next_o_id = n }) same

module _ {Tree : Type 0 → Type 0} {F : Type 0} (m : MassTree Tree) (map : IsMap m)
    (float : FloatOps F) (blank : Unassigned F) (store : Store Tree F) (w : ℕ) (draw : NewOrderDraw)
    (places : HasPlaces store w draw.district_id draw.customer_id) where
  -- the tables that the loop starts with
  abbrev pub line_tables : Store Tree F → LineTables Tree F
  line_tables opened = record {
    table_stock = opened.table_stock;
    table_order_line = opened.table_order_line;
    all_amount = float.of_int 0;
  }

  pub run_new_order_lem :
      (opened : Store Tree F) (placed : Bool × LineTables Tree F)
      → open_order m float blank w draw store ≡ done opened
      → place_lines m float blank opened.table_item w draw.district_id
          (order_id m float blank store w draw)
          1
          draw.lines
          (line_tables opened)
        ≡ done placed
      → run_new_order m float blank w draw store
        ≡ close_order m float blank w draw store opened placed
  unfolding run_new_order
  run_new_order_lem opened placed e e' = rw (e, e')

  -- the loop reads the items that were there at first
  items_lem :
      (opened : Store Tree F) (lines : List Line) (placed : Bool × LineTables Tree F)
      → opened.table_item ≡ store.table_item
      → draw.lines ≡ lines
      → place_lines m float blank store.table_item w draw.district_id
          (order_id m float blank store w draw)
          1
          lines
          (line_tables opened)
        ≡ done placed
      → place_lines m float blank opened.table_item w draw.district_id
          (order_id m float blank store w draw)
          1
          draw.lines
          (line_tables opened)
        ≡ done placed
  items_lem opened lines placed same split e =
      ap
        (λ items.
          place_lines m float blank items w draw.district_id (order_id m float blank store w draw) 1
            draw.lines (line_tables opened))
        same
      ∙ ap
          (λ ls.
            place_lines m float blank store.table_item w draw.district_id
              (order_id m float blank store w draw) 1 ls (line_tables opened))
          split
      ∙ e

  -- On tables that are maps, where every item of the lines has a row, there are fewer than 256
  -- lines, and warehouse, district and customer have their places in the two vectors and fit their
  -- key fields: a new order commits. The district's row then has the next order id, that of the
  -- order; the order and the new order have their rows, every line has its own, with its item's
  -- price in it, and both vectors name the order.
  pub run_new_order-commits :
      HasItems m store.table_item draw.lines
      → length draw.lines < 2 ^ 8
      → (total : F) × (after : Store Tree F) × (run_new_order m float blank w draw store
          ≡ done (some total, after))
        × (get m little after.table_district (d_key w draw.district_id)
            ≡ some (record (read_district m float blank w draw store) {
              d_next_o_id = order_id m float blank store w draw;
            }))
        × (get m little after.table_new_order
              (no_key w draw.district_id (order_id m float blank store w draw))
            ≡ some (record { no_dummy = b'n' ∷ b'o' ∷ [] }))
        × (get m little after.table_order
              (o_key w draw.district_id (order_id m float blank store w draw))
            ≡ some (order_row m float blank store w draw))
        × HasOrderLines m store.table_item float blank w draw.district_id
            (order_id m float blank store w draw)
            1
            draw.lines
            after.table_order_line
        × NamesOrder m float blank store w draw after
  unfolding run_new_order close_order
  run_new_order-commits has few =
      let (opened, e, made) = open_order_lem m float blank store w draw map places in
      let (t, e', rows, _) =
        place_lines-order_lines w draw.district_id (order_id m float blank store w draw)
          places.w_fits places.d_fits (omega arith) m map float blank store.table_item 1 draw.lines
          (line_tables opened) has (omega arith) in
      (
        total_amount m float blank w draw
            (or_unassigned (get m little store.table_warehouse (w_key w)) blank.v_w)
            (read_district m float blank w draw store)
            (or_unassigned
              (get m little store.table_customer (c_key draw.customer_id draw.district_id w))
              blank.v_c)
            t.all_amount,
        record opened { table_stock = t.table_stock; table_order_line = t.table_order_line },
        run_new_order_lem opened (true, t) e
            (items_lem opened draw.lines (true, t) made.items refl e'),
        made.district,
        made.new_order,
        made.order,
        rows,
        record { pending = made.names.pending; latest = made.names.latest },
      )

  -- On tables that are maps, where the district has a row, with a uint32_t as its next order id,
  -- where warehouse, district and customer have their places in the two vectors and fit their key
  -- fields, and where some line's item has no row, but those of the lines before it do: a new order
  -- aborts. The district's row is as it was, and neither the order nor the new order has a row. Both
  -- vectors name the order all the same.
  pub run_new_order-aborts :
      (v_d : DVal F) (before : List Line) (line : Line) (after : List Line)
      → get m little store.table_district (d_key w draw.district_id) ≡ some v_d
      → v_d.d_next_o_id < uint32_mod
      → draw.lines ≡ before ++ line ∷ after
      → HasItems m store.table_item before
      → get m little store.table_item (i_key line.item_id) ≡ none
      → (end : Store Tree F) × (run_new_order m float blank w draw store ≡ done (none, end))
        × (get m little end.table_district (d_key w draw.district_id) ≡ some v_d)
        × (get m little end.table_new_order
              (no_key w draw.district_id (order_id m float blank store w draw))
            ≡ none)
        × (get m little end.table_order
              (o_key w draw.district_id (order_id m float blank store w draw))
            ≡ none)
        × NamesOrder m float blank store w draw end
  unfolding run_new_order close_order abort_order
  run_new_order-aborts v_d before line after there fits split has gone =
      let d = draw.district_id in
      let o = order_id m float blank store w draw in
      let read : read_district m float blank w draw store ≡ v_d = rw there in
      let (opened, e, made) = open_order_lem m float blank store w draw map places in
      let (t, e') =
        place_lines-missing w d o places.w_fits places.d_fits (omega arith) m map float blank
          store.table_item 1 before line after (line_tables opened) has gone in
      let (district, e1, at_d, _) =
        insert-get m map little opened.table_district (d_key w d)
          (record (read_district m float blank w draw store) {
            d_next_o_id = (o + uint32_mod - 1) % uint32_mod;
          }) in
      let (new_order, e2, at_no, _) =
        remove-get m map little opened.table_new_order (no_key w d o) in
      let (order, e3, at_o, _) = remove-get m map little opened.table_order (o_key w d o) in
      (
        record opened {
          table_district = district;
          table_new_order = new_order;
          table_order = order;
          table_stock = t.table_stock;
          table_order_line = t.table_order_line;
        },
        run_new_order_lem opened (false, t) e
              (items_lem opened (before ++ line ∷ after) (false, t) made.items split e')
            ∙ rw (e1, e2, e3),
        at_d
            ∙ ap some (
                ap {A = DVal F} {B = DVal F}
                  (λ v. record v {
                    d_next_o_id = ((v.d_next_o_id + 1) % uint32_mod + uint32_mod - 1) % uint32_mod;
                  })
                  read
                ∙ counted_back v_d fits),
        at_no,
        at_o,
        record { pending = made.names.pending; latest = made.names.latest },
      )
