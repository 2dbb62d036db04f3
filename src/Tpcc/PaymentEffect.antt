-- ===== src/Tpcc/PaymentEffect.antt =====
-- benchmark/real_world/tpcc.cpp `txn_payment`: what the transaction leaves in the tables.
use sidle_baselines.Base.{
  ℕ, ◌+◌, ◌%◌, ◌≡◌, ◌≢◌, ◌⊎◌, refl, some, List, Bool-cases, true, false, inl, inr, arith,
}
use sidle_baselines.Memory.{done, fault, out_of_bounds}
use sidle_baselines.Bytes.{little}
use sidle_baselines.Keys.Packed.{to_str_key}
use sidle_baselines.Keys.Structs.{CKey, w_key, w_struct, d_key, d_struct, c_struct, h_key, h_struct}
use sidle_baselines.Masstree.{MassTree, IsMap, get}
use sidle_baselines.Masstree.WrapperMap.{insert-get}
use sidle_baselines.Tpcc.Values.{FloatOps, WVal, DVal, CVal}
use sidle_baselines.Tpcc.VarStr.{assign, c_string, HasNoZero, c_string-assign}
use sidle_baselines.Tpcc.Store.{Store, Unassigned, or_unassigned, uint32_mod}
use sidle_baselines.Tpcc.PaymentDraws.{PaymentDraw}
use sidle_baselines.Tpcc.Payment.{
  is_bad_credit, pay_warehouse, pay_district, pay_data, paid_row, pay_customer, customer_key,
  history_row, run_payment,
}

module _ {Tree : Type 0 → Type 0} {F : Type 0} (m : MassTree Tree) (map : IsMap m)
    (float : FloatOps F) (blank : Unassigned F) (print_data : CKey → ℕ → ℕ → F → List ℕ → List ℕ)
    (store : Store Tree F) where
  -- Rows of a warehouse, of one of its districts and of a customer, paid into as a payment says; the
  -- history has its row under the time of the payment, and each other customer keeps its own.
  pub record IsPaid (w : ℕ) (draw : PaymentDraw) (v_w : WVal F) (v_d : DVal F) (v_c : CVal F)
      (after : Store Tree F) : Type 0 where
    pub warehouse :
        get m little after.table_warehouse (w_key w)
        ≡ some (pay_warehouse m float blank print_data w draw v_w)
    pub district :
        get m little after.table_district (d_key w draw.district_id)
        ≡ some (pay_district m float blank print_data w draw v_d)
    pub customer :
        (v_c' : CVal F) × (pay_customer m float blank print_data w draw v_c ≡ done v_c')
        × (get m little after.table_customer (customer_key m float blank print_data w draw)
            ≡ some v_c')
    pub other_customers :
        (k : CKey)
        → to_str_key little (customer_key m float blank print_data w draw) ≢ to_str_key little k
        → get m little after.table_customer k ≡ get m little store.table_customer k
    pub history :
        get m little after.table_history (
          h_key w draw.district_id draw.customer_warehouse_id draw.customer_district_id
            draw.customer_id store.tl_hack)
        ≡ some (history_row m float blank print_data w draw v_w v_d)

  -- The customer has no bad credit, or data that hold a string.
  abbrev pub IsPayable : CVal F → Type 0
  IsPayable v_c =
      (is_bad_credit v_c.c_credit ≡ false) ⊎ ((text : List ℕ) × (c_string v_c.c_data ≡ done text))

  pub pay_customer-done :
      (w : ℕ) (draw : PaymentDraw) (v_c : CVal F)
      → IsPayable v_c
      → (v_c' : CVal F) × (pay_customer m float blank print_data w draw v_c ≡ done v_c')
        × (v_c'.c_credit ≡ v_c.c_credit)
  unfolding pay_customer pay_data
  pay_customer-done w draw v_c payable = elim (Bool-cases (is_bad_credit v_c.c_credit)) [
    | inl bad ↦ elim payable [
      | inl good ↦ ground (arith, bad, good)
      | inr (text, e) ↦
          let amount = float.of_cents draw.payment_cents in
          let k_c = customer_key m float blank print_data w draw in
          let printed : List ℕ = print_data k_c draw.district_id w amount text in
          (paid_row m float blank print_data w draw v_c printed, rw (bad, e) refl, refl)
    ]
    | inr good ↦ (paid_row m float blank print_data w draw v_c v_c.c_data, rw good refl, refl)
  ]

  -- On tables that are maps, where the warehouse, the district and the customer of a payment have
  -- their rows, and the customer has no bad credit, or data that hold a string: the payment returns, and leaves these rows, and the history, paid into; every
  -- customer of other key bytes keeps its row.
  pub run_payment-IsPaid :
      (w : ℕ) (draw : PaymentDraw) (v_w : WVal F) (v_d : DVal F) (v_c : CVal F)
      → get m little store.table_warehouse (w_key w) ≡ some v_w
      → get m little store.table_district (d_key w draw.district_id) ≡ some v_d
      → get m little store.table_customer (customer_key m float blank print_data w draw) ≡ some v_c
      → IsPayable v_c
      → (after : Store Tree F) × (run_payment m float blank print_data w draw store ≡ done after)
        × IsPaid w draw v_w v_d v_c after
  unfolding run_payment
  run_payment-IsPaid w draw v_w v_d v_c has_w has_d has_c payable =
      let (v_c', e0, _) = pay_customer-done w draw v_c payable in
      let (warehouse, e1, at_w, _) =
        insert-get m map little store.table_warehouse (w_key w)
          (pay_warehouse m float blank print_data w draw v_w) in
      let (district, e2, at_d, _) =
        insert-get m map little store.table_district (d_key w draw.district_id)
          (pay_district m float blank print_data w draw v_d) in
      let (customer, e3, at_c, others) =
        insert-get m map little store.table_customer (customer_key m float blank print_data w draw)
          v_c' in
      let (history, e4, at_h, _) =
        insert-get m map little store.table_history
          (h_key w draw.district_id draw.customer_warehouse_id draw.customer_district_id
            draw.customer_id store.tl_hack)
          (history_row m float blank print_data w draw v_w v_d) in
      (
        record store {
          table_warehouse = warehouse;
          table_district = district;
          table_customer = customer;
          table_history = history;
          tl_hack = (store.tl_hack + 1) % uint32_mod;
        },
        rw (has_w, has_d, has_c, e1, e2, e0, e3, e4),
        record {
          warehouse = at_w;
          district = at_d;
          customer = (v_c', e0, at_c);
          other_customers = others;
          history = at_h;
        },
      )

  -- On tables that are maps: a payment of a customer with bad credit whose data were assigned from a C string
  -- of any length, and have their 500 bytes, reads past the end of these bytes, whichever rows the warehouse
  -- and the district have.
  pub run_payment-past_end :
      (w : ℕ) (draw : PaymentDraw) (v_c : CVal F) (text : List ℕ)
      → get m little store.table_customer (customer_key m float blank print_data w draw) ≡ some v_c
      → is_bad_credit v_c.c_credit ≡ true
      → v_c.c_data ≡ assign 500 text
      → HasNoZero text
      → run_payment m float blank print_data w draw store ≡ fault out_of_bounds
  unfolding run_payment pay_customer pay_data
  run_payment-past_end w draw v_c text has_c bad assigned no_zero =
      let v_w = or_unassigned (get m little store.table_warehouse (w_key w)) blank.v_w in
      let v_d =
        or_unassigned (get m little store.table_district (d_key w draw.district_id)) blank.v_d in
      let (_, e1, _, _) =
        insert-get m map little store.table_warehouse (w_key w)
          (pay_warehouse m float blank print_data w draw v_w) in
      let (_, e2, _, _) =
        insert-get m map little store.table_district (d_key w draw.district_id)
          (pay_district m float blank print_data w draw v_d) in
      rw (has_c, e1, e2, bad, assigned, c_string-assign 500 text no_zero) refl
