-- ===== src/Tpcc/Payment.antt =====
-- benchmark/real_world/tpcc.cpp `txn_payment`: the reads and writes of the tables.
use Prim.Native.Nat.{Ordering}
use sidle_baselines.Base.{ℕ, ◌+◌, ◌%◌, Bool, true, false, List, [], ◌∷◌, ◌++◌, replicate}
use sidle_baselines.Memory.{Run, done, ◌>>=◌}
use sidle_baselines.Bytes.{little, memcmp}
use sidle_baselines.Keys.Structs.{
  CKey, w_key, w_struct, d_key, d_struct, c_key, c_struct, h_key, h_struct,
}
use sidle_baselines.Masstree.{MassTree, get, insert}
use sidle_baselines.Tpcc.Values.{FloatOps, WVal, DVal, CVal, HVal}
use sidle_baselines.Tpcc.VarStr.{c_string}
use sidle_baselines.Tpcc.Store.{Store, Unassigned, or_unassigned, uint32_mod}
use sidle_baselines.Tpcc.NewOrderDraws.{Settings}
use sidle_baselines.Tpcc.PaymentDraws.{PaymentDraw, draw_payment}

-- `memcmp(credit, "BC", 2) == 0`
unfoldable pub is_bad_credit : List ℕ → Bool
is_bad_credit credit = elim (memcmp credit (b'B' ∷ b'C' ∷ [])) [
  | Ordering.eq ↦ true
  | Ordering.lt ↦ false
  | Ordering.gt ↦ false
]

-- `print_data` is the first 500 bytes that the call of snprintf leaves in its buffer: of the customer's
-- key, the district, the warehouse, the amount and the string that the old data hold.
module _ {Tree : Type 0 → Type 0} {F : Type 0} (m : MassTree Tree) (float : FloatOps F)
    (blank : Unassigned F) (print_data : CKey → ℕ → ℕ → F → List ℕ → List ℕ) where
  module _ (warehouse_id : ℕ) (draw : PaymentDraw) where
    unfoldable pub pay_warehouse : WVal F → WVal F
    pay_warehouse v_w = record v_w {
      w_ytd = float.add v_w.w_ytd (float.of_cents draw.payment_cents);
    }

    unfoldable pub pay_district : DVal F → DVal F
    pay_district v_d = record v_d {
      d_ytd = float.add v_d.d_ytd (float.of_cents draw.payment_cents);
    }

    abbrev pub customer_key : CKey
    customer_key = c_key draw.customer_id draw.customer_district_id draw.customer_warehouse_id

    -- the customer's data after the payment: with bad credit, the printed text before the old data
    unfoldable pub pay_data : Bool → List ℕ → Run (List ℕ)
    unfolding c_string
    pay_data false c_data = done c_data
    pay_data true c_data = do
      text ← c_string c_data
      done (
          print_data customer_key draw.district_id warehouse_id (float.of_cents draw.payment_cents)
            text)

    -- the customer's row after the payment, with its data
    abbrev pub paid_row : CVal F → List ℕ → CVal F
    paid_row v_c c_data =
        let amount = float.of_cents draw.payment_cents in
        record v_c {
          c_balance = float.sub v_c.c_balance amount;
          c_ytd_payment = float.add v_c.c_ytd_payment amount;
          c_payment_cnt = (v_c.c_payment_cnt + 1) % uint32_mod;
          c_data = c_data;
        }

    unfoldable pub pay_customer : CVal F → Run (CVal F)
    unfolding is_bad_credit pay_data
    pay_customer v_c = do
      c_data ← pay_data (is_bad_credit v_c.c_credit) v_c.c_data
      done (paid_row v_c c_data)

    -- the history's row: the amount, and the names of warehouse and district four spaces apart
    unfoldable pub history_row : WVal F → DVal F → HVal F
    history_row v_w v_d = record {
      h_amount = float.of_cents draw.payment_cents;
      h_data = v_w.w_name ++ replicate 4 b' ' ++ v_d.d_name;
    }

    unfoldable pub run_payment : Store Tree F → Run (Store Tree F)
    unfolding pay_warehouse pay_district pay_customer history_row
    run_payment store = do
      let ts = store.tl_hack
      let k_w = w_key warehouse_id
      let v_w = or_unassigned (get m little store.table_warehouse k_w) blank.v_w
      warehouse ← insert m little store.table_warehouse k_w (pay_warehouse v_w)
      let k_d = d_key warehouse_id draw.district_id
      let v_d = or_unassigned (get m little store.table_district k_d) blank.v_d
      district ← insert m little store.table_district k_d (pay_district v_d)
      let v_c = or_unassigned (get m little store.table_customer customer_key) blank.v_c
      v_c' ← pay_customer v_c
      customer ← insert m little store.table_customer customer_key v_c'
      let k_h =
          h_key warehouse_id draw.district_id draw.customer_warehouse_id draw.customer_district_id
            draw.customer_id ts
      history ← insert m little store.table_history k_h (history_row v_w v_d)
      done (record store {
        table_warehouse = warehouse.1;
        table_district = district.1;
        table_customer = customer.1;
        table_history = history.1;
        tl_hack = (ts + 1) % uint32_mod;
      })

  module _ (set : Settings) (fuel warehouse_id : ℕ) where
    -- `txn_payment`, with the seed of the worker's generator
    unfoldable pub txn_payment : Store Tree F → ℕ → Run (Store Tree F × ℕ)
    unfolding draw_payment run_payment
    txn_payment store seed = do
      drawn ← draw_payment set fuel warehouse_id seed
      paid ← run_payment warehouse_id (drawn.0) store
      done (paid, drawn.1)
