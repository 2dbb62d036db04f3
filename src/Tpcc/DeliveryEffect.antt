-- ===== src/Tpcc/DeliveryEffect.antt =====
-- benchmark/real_world/tpcc.cpp `txn_delivery`: what the delivery of one order leaves in the tables.
use sidle_baselines.Base.{
  ℕ, ◌+◌, ◌%◌, ◌≡◌, ◌≢◌, refl, ap, ◌∙◌, some, none, List, [], ◌∷◌, take, arith,
}
use sidle_baselines.Memory.{done}
use sidle_baselines.Bytes.{little}
use sidle_baselines.Keys.Packed.{to_str_key}
use sidle_baselines.Keys.Structs.{
  CKey, c_key, c_struct, NoKey, no_key, no_struct, OKey, o_key, o_struct, OlKey, ol_key, ol_struct,
}
use sidle_baselines.Masstree.{MassTree, IsMap, IsScanned, get}
use sidle_baselines.Masstree.WrapperMap.{insert-get, remove-get}
use sidle_baselines.Tpcc.Values.{FloatOps, OVal, OlVal}
use sidle_baselines.Tpcc.Store.{Store, Unassigned, or_unassigned, uint32_mod}
use sidle_baselines.Tpcc.LineRows.{IsApart, AreDistinct, lines_from}
use sidle_baselines.Tpcc.LineScan.{scan_lines, scan_lines-returns}
use sidle_baselines.Tpcc.Delivery.{
  LineDelivery, deliver_line, deliver_lines, credit_customer, deliver_order,
}

module _ {Tree : Type 0 → Type 0} {F : Type 0} (m : MassTree Tree) (float : FloatOps F) where
  -- the sum of the lines' amounts, added to what there is from the first on
  abbrev pub add_amounts : F → List (OlKey × OlVal F) → F
  add_amounts total [] = total
  add_amounts total ((k, v) ∷ kvs) = add_amounts (float.add total v.ol_amount) kvs

  -- Each line has its row with a date in it: the first that of the clock, each next one a tick later.
  abbrev pub AreDated : ℕ → List (OlKey × OlVal F) → Tree (OlVal F) → Type 0
  AreDated clock [] table = Unit
  AreDated clock ((k, v) ∷ kvs) table =
      (get m little table k ≡ some (record v { ol_delivery_d = clock }))
      × AreDated ((clock + 1) % uint32_mod) kvs table

  module _ (map : IsMap m) where
    deliver_line_lem :
        (k : OlKey) (v : OlVal F) (t : LineDelivery Tree F)
        → (t' : LineDelivery Tree F) × (deliver_line m float k v t ≡ done t')
          × (t'.ol_total ≡ float.add t.ol_total v.ol_amount)
          × (t'.tl_hack ≡ (t.tl_hack + 1) % uint32_mod)
          × (get m little t'.table_order_line k ≡ some (record v { ol_delivery_d = t.tl_hack }))
          × ((j : OlKey)
              → to_str_key little k ≢ to_str_key little j
              → get m little t'.table_order_line j ≡ get m little t.table_order_line j)
    unfolding deliver_line
    deliver_line_lem k v t =
        let (lines, e, at, others) =
          insert-get m map little t.table_order_line k (record v { ol_delivery_d = t.tl_hack }) in
        (
          record {
            table_order_line = lines;
            tl_hack = (t.tl_hack + 1) % uint32_mod;
            ol_total = float.add t.ol_total v.ol_amount;
          },
          rw e,
          refl,
          refl,
          at,
          others,
        )

    -- On a table that is a map, the loop over lines of different keys returns the sum of their amounts.
    -- Each line then has its row, dated by the clock, and each line of another key keeps its own.
    pub deliver_lines-AreDated :
        (kvs : List (OlKey × OlVal F)) (t : LineDelivery Tree F)
        → AreDistinct kvs
        → (t' : LineDelivery Tree F) × (deliver_lines m float kvs t ≡ done t')
          × (t'.ol_total ≡ add_amounts t.ol_total kvs)
          × AreDated t.tl_hack kvs t'.table_order_line
          × ((j : OlKey)
              → IsApart j kvs
              → get m little t'.table_order_line j ≡ get m little t.table_order_line j)
    unfolding deliver_lines
    deliver_lines-AreDated [] t distinct = (t, refl, refl, tt, λ j apart. refl)
    deliver_lines-AreDated ((k, v) ∷ kvs) t (apart, distinct) =
        let (u, e, total, clock, at, others) = deliver_line_lem k v t in
        let (t', e', total', dated, others') = deliver_lines-AreDated kvs u distinct in
        (
          t',
          rw (e, e'),
          total' ∙ ap (λ x. add_amounts x kvs) total,
          (others' k apart ∙ at, rw (← clock) dated),
          λ j (far, rest). others' j rest ∙ others j far,
        )

    deliver_lines-returns :
        (kvs : List (OlKey × OlVal F)) (t : LineDelivery Tree F)
        → (t' : LineDelivery Tree F) × (deliver_lines m float kvs t ≡ done t')
    unfolding deliver_lines
    deliver_lines-returns [] t = (t, refl)
    deliver_lines-returns ((k, v) ∷ kvs) t =
        let (u, e, _, _, _, _) = deliver_line_lem k v t in
        let (t', e') = deliver_lines-returns kvs u in (t', rw (e, e'))

  module _ (blank : Unassigned F) (w carrier d o : ℕ) (v_o : OVal) (store : Store Tree F) where
    -- What the delivery of an order, whose lines give a total, leaves of the tables but the order lines.
    pub record IsDelivered (total : F) (after : Store Tree F) : Type 0 where
      pub new_order : get m little after.table_new_order (no_key w d o) ≡ none
      pub other_new_orders :
          (j : NoKey)
          → to_str_key little (no_key w d o) ≢ to_str_key little j
          → get m little after.table_new_order j ≡ get m little store.table_new_order j
      pub order :
          get m little after.table_order (o_key w d o)
          ≡ some (record v_o { o_carrier_id = carrier })
      pub other_orders :
          (j : OKey)
          → to_str_key little (o_key w d o) ≢ to_str_key little j
          → get m little after.table_order j ≡ get m little store.table_order j
      pub customer :
          get m little after.table_customer (c_key v_o.o_c_id d w)
          ≡ some (
              credit_customer m float
                (or_unassigned (get m little store.table_customer (c_key v_o.o_c_id d w)) blank.v_c)
                total)
      pub other_customers :
          (j : CKey)
          → to_str_key little (c_key v_o.o_c_id d w) ≢ to_str_key little j
          → get m little after.table_customer j ≡ get m little store.table_customer j
      pub pending : after.pending_new_order_per_dis ≡ store.pending_new_order_per_dis
      pub latest : after.latest_order_id_per_customer ≡ store.latest_order_id_per_customer
      pub districts : after.table_district ≡ store.table_district
      pub items : after.table_item ≡ store.table_item

    -- what the loop over the lines starts with
    abbrev start_lines : LineDelivery Tree F
    start_lines = record {
      table_order_line = store.table_order_line;
      tl_hack = store.tl_hack;
      ol_total = float.of_int 0;
    }

    deliver_order-done :
        (map : IsMap m) (kvs : List (OlKey × OlVal F)) (t : LineDelivery Tree F)
        → scan_lines m store (ol_key w d o 0) 10 ≡ done kvs
        → deliver_lines m float kvs start_lines ≡ done t
        → (after : Store Tree F) × (deliver_order m float blank w carrier d o v_o store
            ≡ done after)
          × IsDelivered t.ol_total after
          × (after.table_order_line ≡ t.table_order_line)
    unfolding deliver_order
    deliver_order-done map kvs t found e =
        let k_c = c_key v_o.o_c_id d w in
        let (new_order, e1, at_no, others_no) =
          remove-get m map little store.table_new_order (no_key w d o) in
        let (order, e2, at_o, others_o) =
          insert-get m map little store.table_order (o_key w d o)
            (record v_o { o_carrier_id = carrier }) in
        let (customer, e3, at_c, others_c) = insert-get m map little store.table_customer k_c (
          credit_customer m float (or_unassigned (get m little store.table_customer k_c) blank.v_c)
            t.ol_total) in
        (
          record store {
            table_new_order = new_order;
            table_order = order;
            table_order_line = t.table_order_line;
            tl_hack = t.tl_hack;
            table_customer = customer;
          },
          rw (e1, e2, found, e, e3),
          record {
            new_order = at_no;
            other_new_orders = others_no;
            order = at_o;
            other_orders = others_o;
            customer = at_c;
            other_customers = others_c;
            pending = refl;
            latest = refl;
            districts = refl;
            items = refl;
          },
          refl,
        )

    -- On tables that are maps and are scanned in order, a delivery returns.
    pub deliver_order-returns :
        (map : IsMap m) (scanned : IsScanned m)
        → (total : F) × (after : Store Tree F) × (deliver_order m float blank w carrier d o v_o
              store
            ≡ done after)
          × IsDelivered total after
    deliver_order-returns map scanned =
        let (kvs, found, _, _) =
          scan_lines-returns m scanned store (ol_key w d o 0) 10 (omega arith) in
        let (t, e) = deliver_lines-returns map kvs start_lines in
        let (after, e', delivered, _) = deliver_order-done map kvs t found e in
        (t.ol_total, after, e', delivered)

    -- the lines that a delivery of the order scans, of all the lines in ascending order
    abbrev pub scanned_lines : List (OlKey × OlVal F) → List (OlKey × OlVal F)
    scanned_lines lines = take 10 (lines_from (to_str_key little (ol_key w d o 0)) lines)
