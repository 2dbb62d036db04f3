-- ===== src/Examples/PaymentRuns.antt =====
-- The payment transaction of benchmark/real_world/tpcc.cpp on a small store.
use sidle_baselines.Base.{ℕ, ◌≡◌, refl, true, some, arith, List, [], ◌∷◌}
use sidle_baselines.Memory.{fault, out_of_bounds}
use sidle_baselines.Bytes.{little, memcmp}
use sidle_baselines.Keys.Structs.{CKey, w_struct, d_struct, c_key, c_struct}
use sidle_baselines.Masstree.{get}
use sidle_baselines.Tpcc.Values.{CVal}
use sidle_baselines.Tpcc.VarStr.{assign}
use sidle_baselines.Tpcc.Store.{Store}
use sidle_baselines.Tpcc.PaymentDraws.{PaymentDraw}
use sidle_baselines.Tpcc.Payment.{is_bad_credit, run_payment}
use sidle_baselines.Tpcc.PaymentEffect.{run_payment-past_end}
use sidle_baselines.Examples.Trees.{FunctionTree, function_tree, function_tree-IsMap}
use sidle_baselines.Examples.TpccRuns.{floats, blank, stocked}

bad_credit : is_bad_credit (b'B' ∷ b'C' ∷ []) ≡ true
unfolding is_bad_credit memcmp
bad_credit = refl

-- the amount and the warehouse in front of the old data
abbrev print_data : CKey → ℕ → ℕ → ℕ → List ℕ → List ℕ
print_data k d w amount data_ = amount ∷ w ∷ data_

abbrev payment : PaymentDraw
payment = record {
  district_id = 1;
  customer_district_id = 1;
  customer_warehouse_id = 1;
  payment_cents = 1234;
  customer_id = 7;
}

-- a customer with bad credit, as the loader makes a tenth of them
abbrev bad_customer : CVal ℕ
bad_customer = record blank.v_c {
  c_credit = b'B' ∷ b'C' ∷ [];
  c_data = assign 500 (b'd' ∷ b'a' ∷ b't' ∷ b'a' ∷ []);
}

abbrev bad_store : Store FunctionTree ℕ
bad_store = record stocked { table_customer = λ s. some bad_customer }

bad_customer_found :
    get function_tree little bad_store.table_customer (c_key 7 1 1) ≡ some bad_customer
unfolding get
bad_customer_found = refl

run_payment-past_end_example :
    run_payment function_tree floats blank print_data 1 payment bad_store ≡ fault out_of_bounds
run_payment-past_end_example =
    run_payment-past_end function_tree function_tree-IsMap floats blank print_data bad_store 1
      payment bad_customer (b'd' ∷ b'a' ∷ b't' ∷ b'a' ∷ []) bad_customer_found bad_credit refl
      (omega arith)
