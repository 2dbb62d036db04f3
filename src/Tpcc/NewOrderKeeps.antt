-- ===== src/Tpcc/NewOrderKeeps.antt =====
-- benchmark/real_world/tpcc.cpp `txn_new_order`: that it returns, whether it commits or aborts, and what it
-- leaves as it was in either case.
use sidle_baselines.Base.{
  ℕ, ◌+◌, ◌-◌, ◌%◌, ◌^◌, ◌<◌, ◌≡◌, ◌≢◌, refl, sym, ◌∙◌, Bool, true, false, Option, none, some, inl,
  inr, Option-cases, List, [], ◌∷◌, arith,
}
use sidle_baselines.Memory.{done}
use sidle_baselines.Bytes.{little}
use sidle_baselines.Keys.Packed.{to_str_key}
use sidle_baselines.Keys.Structs.{
  w_key, w_struct, c_key, c_struct, d_key, d_struct, NoKey, no_key, no_struct, OKey, o_key,
  o_struct, i_key, i_struct,
}
use sidle_baselines.Masstree.{MassTree, IsMap, get}
use sidle_baselines.Masstree.WrapperMap.{insert-get, remove-get}
use sidle_baselines.Tpcc.Values.{FloatOps, NoVal, OVal, IVal}
use sidle_baselines.Tpcc.Store.{Store, Unassigned, or_unassigned, uint32_mod}
use sidle_baselines.Tpcc.Places.{pair_written, triple_written}
use sidle_baselines.Tpcc.NewOrderDraws.{Line, NewOrderDraw}
use sidle_baselines.Tpcc.NewOrder.{
  LineTables, read_district, close_order, abort_order, total_amount, run_new_order, place_lines,
}
use sidle_baselines.Tpcc.Lines.{place_line_lem, place_lines-found}
use sidle_baselines.Tpcc.NewOrderEffect.{HasPlaces, IsOpened, order_id, open_order_lem}
use sidle_baselines.Tpcc.NewOrderOutcome.{line_tables, run_new_order_lem}

none≢some : {A : Type 0} (a : A) → none ≢ some a
none≢some a e = cc

module _ {Tree : Type 0 → Type 0} {F : Type 0} (m : MassTree Tree) (map : IsMap m)
    (float : FloatOps F) (blank : Unassigned F) where
  module _ (items : Tree (IVal F)) (w d o : ℕ) (w_fits : w < 2 ^ 16) (d_fits : d < 2 ^ 8)
      (o_fits : o < 2 ^ 32) where
    place_lines-missing_item :
        (n : ℕ) (line : Line) (lines : List Line) (t : LineTables Tree F)
        → get m little items (i_key line.item_id) ≡ none
        → place_lines m float blank items w d o n (line ∷ lines) t ≡ done (false, t)
    unfolding place_lines
    place_lines-missing_item n line lines t gone = ground (arith, gone)

    -- On tables that are maps, the loop over the lines returns.
    place_lines-returns :
        (n : ℕ) (lines : List Line) (t : LineTables Tree F)
        → (end : Bool × LineTables Tree F) × (place_lines m float blank items w d o n lines t
            ≡ done end)
    unfolding place_lines
    place_lines-returns n [] t = ((true, t), refl)
    place_lines-returns n (line ∷ lines) t =
        elim (Option-cases (get m little items (i_key line.item_id))) [
          | inl gone ↦ ((false, t), place_lines-missing_item n line lines t gone)
          | inr (v_i, there) ↦
              let (u, e, _, _, _) =
                place_line_lem w d o w_fits d_fits o_fits m map float blank items n line v_i t in
              let (end, e') = place_lines-returns (n + 1) lines u in
              (
                end,
                place_lines-found w d o w_fits d_fits o_fits m map float blank items n line lines
                      v_i t u there e
                    ∙ e',
              )
        ]

  module _ (store : Store Tree F) (w : ℕ) (draw : NewOrderDraw) where
    -- What a new order, whether it commits or aborts, leaves of the orders and the vectors.
    pub record IsEntered (after : Store Tree F) : Type 0 where
      pub pending_is :
          after.pending_new_order_per_dis
          ≡ pair_written store.pending_new_order_per_dis w draw.district_id
              (order_id m float blank store w draw)
      pub latest_is :
          after.latest_order_id_per_customer
          ≡ triple_written store.latest_order_id_per_customer w draw.district_id draw.customer_id
              (order_id m float blank store w draw)
      pub items : after.table_item ≡ store.table_item
      pub customers : after.table_customer ≡ store.table_customer
      pub has_order :
          (v_no : NoVal)
          → get m little after.table_new_order
              (no_key w draw.district_id (order_id m float blank store w draw))
            ≡ some v_no
          → (v_o : OVal) × (get m little after.table_order
                (o_key w draw.district_id (order_id m float blank store w draw))
              ≡ some v_o)
      pub other_new_orders :
          (j : NoKey)
          → to_str_key little (no_key w draw.district_id (order_id m float blank store w draw))
            ≢ to_str_key little j
          → get m little after.table_new_order j ≡ get m little store.table_new_order j
      pub other_orders :
          (j : OKey)
          → to_str_key little (o_key w draw.district_id (order_id m float blank store w draw))
            ≢ to_str_key little j
          → get m little after.table_order j ≡ get m little store.table_order j

    module _ (opened : Store Tree F) (made : IsOpened m float blank store w draw opened) where
      committed :
          (t : LineTables Tree F)
          → (total : Option F) × (after : Store Tree F) × (close_order m float blank w draw store
                opened
                (true, t)
              ≡ done (total, after))
            × IsEntered after
      unfolding close_order
      committed t = (
        some (
            total_amount m float blank w draw
              (or_unassigned (get m little store.table_warehouse (w_key w)) blank.v_w)
              (read_district m float blank w draw store)
              (or_unassigned
                (get m little store.table_customer (c_key draw.customer_id draw.district_id w))
                blank.v_c)
              t.all_amount),
        record opened { table_stock = t.table_stock; table_order_line = t.table_order_line },
        refl,
        record {
          pending_is = made.pending_is;
          latest_is = made.latest_is;
          items = made.items;
          customers = made.customers;
          has_order = λ v_no there. (_, made.order);
          other_new_orders = made.other_new_orders;
          other_orders = made.other_orders;
        },
      )

      aborted :
          (t : LineTables Tree F)
          → (total : Option F) × (after : Store Tree F) × (close_order m float blank w draw store
                opened
                (false, t)
              ≡ done (total, after))
            × IsEntered after
      unfolding close_order abort_order
      aborted t =
          let d = draw.district_id in
          let o = order_id m float blank store w draw in
          let (district, e1, _, _) =
            insert-get m map little opened.table_district (d_key w d)
              (record (read_district m float blank w draw store) {
                d_next_o_id = (o + uint32_mod - 1) % uint32_mod;
              }) in
          let (new_order, e2, at_no, others_no) =
            remove-get m map little opened.table_new_order (no_key w d o) in
          let (order, e3, _, others_o) = remove-get m map little opened.table_order (o_key w d o) in
          (
            none,
            record opened {
              table_district = district;
              table_new_order = new_order;
              table_order = order;
              table_stock = t.table_stock;
              table_order_line = t.table_order_line;
            },
            rw (e1, e2, e3),
            record {
              pending_is = made.pending_is;
              latest_is = made.latest_is;
              items = made.items;
              customers = made.customers;
              has_order = λ v_no there. absurd (none≢some v_no (sym at_no ∙ there));
              other_new_orders = λ j apart. others_no j apart ∙ made.other_new_orders j apart;
              other_orders = λ j apart. others_o j apart ∙ made.other_orders j apart;
            },
          )

    -- On tables that are maps, where warehouse, district and customer have their places in the two
    -- vectors and fit their key fields: a new order returns, whether it commits or aborts. Both
    -- vectors then name the order, and no other; if the new order has a row, so has the order; and
    -- each new order and each order of another key, and each item, keeps its row.
    pub run_new_order-IsEntered :
        HasPlaces store w draw.district_id draw.customer_id
        → (total : Option F) × (after : Store Tree F) × (run_new_order m float blank w draw store
            ≡ done (total, after))
          × IsEntered after
    run_new_order-IsEntered places =
        let o = order_id m float blank store w draw in
        let (opened, e, made) = open_order_lem m float blank store w draw map places in
        let ((all, t), e') =
          place_lines-returns opened.table_item w draw.district_id o places.w_fits places.d_fits
            (omega arith) 1 draw.lines (line_tables m map float blank store w draw places opened) in
        let ran = run_new_order_lem m map float blank store w draw places opened (all, t) e e' in
        closed all t ran
      where
        closed :
            (all : Bool) (t : LineTables Tree F)
            → run_new_order m float blank w draw store
              ≡ close_order m float blank w draw store
                  (open_order_lem m float blank store w draw map places).0
                  (all, t)
            → (total : Option F) × (after : Store Tree F) × (run_new_order m float blank w draw
                  store
                ≡ done (total, after))
              × IsEntered after
        closed true t ran =
            let (opened, e, made) = open_order_lem m float blank store w draw map places in
            let (total, after, e', entered) = committed opened made t in
            (total, after, ran ∙ e', entered)
        closed false t ran =
            let (opened, e, made) = open_order_lem m float blank store w draw map places in
            let (total, after, e', entered) = aborted opened made t in
            (total, after, ran ∙ e', entered)
