-- ===== src/Tpcc/Delivery.antt =====
-- benchmark/real_world/tpcc.cpp `txn_delivery`.
use sidle_baselines.Base.{ℕ, zero, suc, ◌+◌, ◌%◌, Bool, true, false, none, some, List, [], ◌∷◌}
use sidle_baselines.Memory.{Run, done, ◌>>=◌, ◌>>◌, check}
use sidle_baselines.Bytes.{little}
use sidle_baselines.Keys.Structs.{
  c_key, c_struct, no_key, no_struct, o_key, o_struct, OlKey, ol_key, ol_struct,
}
use sidle_baselines.Random.Draws.{random_number}
use sidle_baselines.Masstree.{MassTree, get, insert, remove}
use sidle_baselines.Tpcc.Values.{FloatOps, CVal, OVal, OlVal}
use sidle_baselines.Tpcc.Store.{Store, Unassigned, or_unassigned, uint32_mod, read_pair}
use sidle_baselines.Tpcc.NewOrderDraws.{Settings}
use sidle_baselines.Tpcc.LineScan.{scan_lines}

-- what the loop over the scanned order lines changes
pub record LineDelivery (Tree : Type 0 → Type 0) (F : Type 0) : Type 0 where
  pub table_order_line : Tree (OlVal F)
  pub tl_hack : ℕ
  pub ol_total : F

module _ {Tree : Type 0 → Type 0} {F : Type 0} (m : MassTree Tree) (float : FloatOps F) where
  -- a round of the loop: the line is added up, dated by the clock, and written back
  unfoldable pub deliver_line : OlKey → OlVal F → LineDelivery Tree F → Run (LineDelivery Tree F)
  deliver_line k v t = do
    res ← insert m little t.table_order_line k (record v { ol_delivery_d = t.tl_hack })
    check (res.0)
    done (record {
      table_order_line = res.1;
      tl_hack = (t.tl_hack + 1) % uint32_mod;
      ol_total = float.add t.ol_total v.ol_amount;
    })

  unfoldable pub deliver_lines :
      List (OlKey × OlVal F) → LineDelivery Tree F → Run (LineDelivery Tree F)
  unfolding deliver_line
  deliver_lines [] t = done t
  deliver_lines ((k, v) ∷ kvs_ol) t = do t' ← deliver_line k v t; deliver_lines kvs_ol t'

  -- the customer's row once an order is delivered
  unfoldable pub credit_customer : CVal F → F → CVal F
  credit_customer v_c ol_total = record v_c {
    c_balance = float.add v_c.c_balance ol_total;
    c_delivery_cnt = (v_c.c_delivery_cnt + 1) % uint32_mod;
  }

  module _ (blank : Unassigned F) (warehouse_id o_carrier_id : ℕ) where
    -- a round of the loop over the districts, once the new order and the order are read: `o_id` is
    -- `min_no_o_id`
    unfoldable pub deliver_order : ℕ → ℕ → OVal → Store Tree F → Run (Store Tree F)
    unfolding deliver_lines credit_customer
    deliver_order d_id o_id v_o store = do
      let new_order = remove m little store.table_new_order (no_key warehouse_id d_id o_id)
      order ←
          insert m little store.table_order (o_key warehouse_id d_id o_id)
            (record v_o { o_carrier_id = o_carrier_id })
      kvs_ol ← scan_lines m store (ol_key warehouse_id d_id o_id 0) 10
      lines ← deliver_lines kvs_ol (record {
        table_order_line = store.table_order_line;
        tl_hack = store.tl_hack;
        ol_total = float.of_int 0;
      })
      let k_c = c_key v_o.o_c_id d_id warehouse_id
      let v_c = or_unassigned (get m little store.table_customer k_c) blank.v_c
      customer ← insert m little store.table_customer k_c (credit_customer v_c lines.ol_total)
      done (record store {
        table_new_order = new_order.1;
        table_order = order.1;
        table_order_line = lines.table_order_line;
        tl_hack = lines.tl_hack;
        table_customer = customer.1;
      })

    -- a round of the loop over the districts, once the id of the new order is known, with whether
    -- the loop goes on after it
    unfoldable pub serve_district : ℕ → ℕ → Store Tree F → Run (Bool × Store Tree F)
    unfolding deliver_order
    serve_district d_id o_id store =
        elim (get m little store.table_new_order (no_key warehouse_id d_id o_id)) [
          | none ↦ done (true, store)
          | some v_no ↦ elim (get m little store.table_order (o_key warehouse_id d_id o_id)) [
            | none ↦ done (false, store)
            | some v_o ↦ do store' ← deliver_order d_id o_id v_o store; done (true, store')
          ]
        ]

    unfoldable pub deliver_district : ℕ → Store Tree F → Run (Bool × Store Tree F)
    unfolding serve_district read_pair
    deliver_district d_id store = do
      latest_no_id ← read_pair store.pending_new_order_per_dis warehouse_id d_id
      serve_district d_id (latest_no_id % uint32_mod) store

    -- the loop from a district on, for as many as are left
    unfoldable pub deliver_districts : ℕ → ℕ → Store Tree F → Run (Store Tree F)
    unfolding deliver_district
    deliver_districts zero d_id store = done store
    deliver_districts (suc left) d_id store = do
      end ← deliver_district d_id store
      elim (end.0) [ true ↦ deliver_districts left (d_id + 1) end.1 | false ↦ done end.1 ]

  module _ (blank : Unassigned F) (set : Settings) (warehouse_id : ℕ) where
    -- `txn_delivery`, with the seed of the worker's generator
    unfoldable pub txn_delivery : Store Tree F → ℕ → Run (Store Tree F × ℕ)
    unfolding deliver_districts
    txn_delivery store seed = do
      drawn ← random_number 1 set.num_district_per_warehouse seed
      after ← deliver_districts blank warehouse_id drawn.0 set.num_district_per_warehouse 1 store
      done (after, drawn.1)
