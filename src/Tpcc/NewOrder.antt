-- ===== src/Tpcc/NewOrder.antt =====
-- benchmark/real_world/tpcc.cpp `txn_new_order`: the reads and writes of the tables.
use sidle_baselines.Base.{
  ℕ, ◌+◌, ◌-◌, ◌%◌, ◌^◌, Bool, true, false, Option, none, some, List, [], ◌∷◌, length, leb, ◌==◌,
  if◌then◌else◌,
}
use sidle_baselines.Memory.{Run, done, ◌>>=◌}
use sidle_baselines.Bytes.{little}
use sidle_baselines.Keys.Structs.{
  w_key, w_struct, d_key, d_struct, c_key, c_struct, no_key, no_struct, o_key, o_struct, i_key,
  i_struct, s_key, s_struct, ol_key, ol_struct,
}
use sidle_baselines.Masstree.{MassTree, get, insert, remove}
use sidle_baselines.Tpcc.Values.{FloatOps, WVal, DVal, CVal, OlVal, IVal, SVal}
use sidle_baselines.Tpcc.Store.{
  Store, Unassigned, or_unassigned, uint32_mod, write_pair, write_triple,
}
use sidle_baselines.Tpcc.NewOrderDraws.{Line, NewOrderDraw, Settings, draw_new_order}

-- what the loop over the order lines changes
pub record LineTables (Tree : Type 0 → Type 0) (F : Type 0) : Type 0 where
  pub table_stock : Tree (SVal F)
  pub table_order_line : Tree (OlVal F)
  pub all_amount : F

-- the quantity that is left in stock, all of it in uint32_t
unfoldable pub new_quantity : ℕ → ℕ → ℕ
new_quantity s_quantity ol_quantity =
    if leb 10 ((s_quantity + uint32_mod - ol_quantity) % uint32_mod)
    then (s_quantity + uint32_mod - ol_quantity) % uint32_mod
    else (s_quantity + (91 + uint32_mod - ol_quantity)) % uint32_mod

module _ {Tree : Type 0 → Type 0} {F : Type 0} (m : MassTree Tree) (float : FloatOps F)
    (blank : Unassigned F) where
  -- the stock's row after a line of the order
  unfoldable pub new_stock : SVal F → ℕ → Line → SVal F
  unfolding new_quantity
  new_stock v_s warehouse_id line = record {
    s_quantity = new_quantity v_s.s_quantity line.order_quantity;
    s_ytd = float.add v_s.s_ytd (float.of_int line.order_quantity);
    s_order_cnt = (v_s.s_order_cnt + 1) % uint32_mod;
    s_remote_cnt =
        (v_s.s_remote_cnt + (if line.supplier_warehouse_id == warehouse_id then 0 else 1))
        % uint32_mod;
  }

  unfoldable pub new_order_line : IVal F → Line → OlVal F
  new_order_line v_i line = record {
    ol_i_id = line.item_id;
    ol_delivery_d = 0;
    ol_amount = float.line_amount line.order_quantity v_i.i_price;
    ol_supply_w_id = line.supplier_warehouse_id;
    ol_quantity = line.order_quantity % 2 ^ 8;
  }

  module _ (table_item : Tree (IVal F)) (warehouse_id district_id o_id : ℕ) where
    -- a round of the loop over the order lines, once the item is read
    unfoldable pub place_line : ℕ → Line → IVal F → LineTables Tree F → Run (LineTables Tree F)
    place_line ol_number line v_i t = do
      let k_s = s_key line.supplier_warehouse_id line.item_id
      let v_s = or_unassigned (get m little t.table_stock k_s) blank.v_s
      stock ← insert m little t.table_stock k_s (new_stock v_s warehouse_id line)
      let v_ol = new_order_line v_i line
      lines ←
          insert m little t.table_order_line (ol_key warehouse_id district_id o_id ol_number) v_ol
      done (record {
        table_stock = stock.1;
        table_order_line = lines.1;
        all_amount = float.add t.all_amount v_ol.ol_amount;
      })

    -- the loop from the line of number ol_number on, with whether every item was there
    unfoldable pub place_lines : ℕ → List Line → LineTables Tree F → Run (Bool × LineTables Tree F)
    unfolding place_line
    place_lines ol_number [] t = done (true, t)
    place_lines ol_number (line ∷ lines) t = elim (get m little table_item (i_key line.item_id)) [
      | none ↦ done (false, t)
      | some v_i ↦ do t' ← place_line ol_number line v_i t; place_lines (ol_number + 1) lines t'
    ]

  module _ (warehouse_id : ℕ) (draw : NewOrderDraw) where
    abbrev pub read_district : Store Tree F → DVal F
    read_district store =
        or_unassigned (get m little store.table_district (d_key warehouse_id draw.district_id))
          blank.v_d

    -- the writes before the loop
    unfoldable pub open_order : Store Tree F → Run (Store Tree F)
    unfolding write_pair write_triple
    open_order store = do
      let o_id = ((read_district store).d_next_o_id + 1) % uint32_mod
      district ←
          insert m little store.table_district (d_key warehouse_id draw.district_id)
            (record (read_district store) { d_next_o_id = o_id })
      new_order ←
          insert m little store.table_new_order (no_key warehouse_id draw.district_id o_id)
            (record { no_dummy = b'n' ∷ b'o' ∷ [] })
      pending ← write_pair store.pending_new_order_per_dis warehouse_id draw.district_id o_id
      latest ←
          write_triple store.latest_order_id_per_customer warehouse_id draw.district_id
            draw.customer_id o_id
      order ← insert m little store.table_order (o_key warehouse_id draw.district_id o_id) (record {
        o_c_id = draw.customer_id;
        o_carrier_id = 0;
        o_ol_cnt = length draw.lines % 2 ^ 8;
        o_all_local = draw.all_local;
        o_entry_d = store.tl_hack;
      })
      done (record store {
        table_district = district.1;
        table_new_order = new_order.1;
        pending_new_order_per_dis = pending;
        latest_order_id_per_customer = latest;
        table_order = order.1;
        tl_hack = (store.tl_hack + 1) % uint32_mod;
      })

    -- what is undone where an item is missing
    unfoldable pub abort_order : DVal F → Store Tree F → Run (Store Tree F)
    abort_order v_d store = do
      let o_id = v_d.d_next_o_id
      district ←
          insert m little store.table_district (d_key warehouse_id draw.district_id)
            (record v_d { d_next_o_id = (o_id + uint32_mod - 1) % uint32_mod })
      let new_order =
          remove m little store.table_new_order (no_key warehouse_id draw.district_id o_id)
      let order = remove m little store.table_order (o_key warehouse_id draw.district_id o_id)
      done (record store {
        table_district = district.1;
        table_new_order = new_order.1;
        table_order = order.1;
      })

    -- `total_amount` of the order
    unfoldable pub total_amount : WVal F → DVal F → CVal F → F → F
    total_amount v_w v_d v_c all_amount =
        float.mul (float.mul all_amount (float.sub (float.of_int 1) v_c.c_discount))
          (float.add (float.add (float.of_int 1) v_w.w_tax) v_d.d_tax)

    -- the end of the transaction: its total, or nothing where it aborted
    unfoldable pub close_order :
        Store Tree F → Store Tree F → Bool × LineTables Tree F → Run (Option F × Store Tree F)
    unfolding abort_order
    close_order before store (true, t) =
        let v_w =
          or_unassigned (get m little before.table_warehouse (w_key warehouse_id)) blank.v_w in
        let v_c =
          or_unassigned
            (get m little before.table_customer
              (c_key draw.customer_id draw.district_id warehouse_id))
            blank.v_c in
        done (
          some (total_amount v_w (read_district before) v_c t.all_amount),
          record store { table_stock = t.table_stock; table_order_line = t.table_order_line },
        )
    close_order before store (false, t) = do
      let o_id = ((read_district before).d_next_o_id + 1) % uint32_mod
      undone ←
          abort_order (record (read_district before) { d_next_o_id = o_id })
            (record store { table_stock = t.table_stock; table_order_line = t.table_order_line })
      done (none, undone)

    -- `txn_new_order` once it has drawn
    unfoldable pub run_new_order : Store Tree F → Run (Option F × Store Tree F)
    unfolding open_order close_order place_lines
    run_new_order store = do
      let o_id = ((read_district store).d_next_o_id + 1) % uint32_mod
      opened ← open_order store
      placed ←
          place_lines opened.table_item warehouse_id draw.district_id o_id 1 draw.lines (record {
            table_stock = opened.table_stock;
            table_order_line = opened.table_order_line;
            all_amount = float.of_int 0;
          })
      close_order store opened placed

module _ {Tree : Type 0 → Type 0} {F : Type 0} (m : MassTree Tree) (float : FloatOps F)
    (blank : Unassigned F) (set : Settings) (fuel warehouse_id : ℕ) where
  -- `txn_new_order`, with the seed of the worker's generator
  unfoldable pub txn_new_order : Store Tree F → ℕ → Run ((Option F × Store Tree F) × ℕ)
  unfolding draw_new_order run_new_order
  txn_new_order store seed = do
    drawn ← draw_new_order set fuel warehouse_id seed
    ended ← run_new_order m float blank warehouse_id (drawn.0) store
    done (ended, drawn.1)
