-- ===== src/Tpcc/DeliveryDistrict.antt =====
-- benchmark/real_world/tpcc.cpp `txn_delivery`: a round of the loop over the districts.
use sidle_baselines.Base.{
  ℕ, ◌-◌, ◌%◌, ◌^◌, ◌≤◌, ◌<◌, ◌≡◌, ◌≢◌, refl, ap, ◌∙◌, true, false, Option, none, some, inl, inr,
  Option-cases, arith,
}
use sidle_baselines.Memory.{done, Array}
use sidle_baselines.Bytes.{little}
use sidle_baselines.Keys.Packed.{to_str_key}
use sidle_baselines.Keys.Structs.{NoKey, no_key, no_struct, OKey, o_key, o_struct, c_key, c_struct}
use sidle_baselines.Masstree.{MassTree, IsMap, IsScanned, get}
use sidle_baselines.Tpcc.Values.{FloatOps, NoVal, OVal}
use sidle_baselines.Tpcc.Store.{Store, Unassigned, or_unassigned, uint32_mod, read_pair}
use sidle_baselines.Tpcc.Places.{read_pair_lem}
use sidle_baselines.Tpcc.Delivery.{credit_customer, deliver_order, serve_district, deliver_district}
use sidle_baselines.Tpcc.DeliveryEffect.{IsDelivered, deliver_order-returns}
use sidle_baselines.Tpcc.Credits.{KeepsCredits, written-KeepsCredits}

-- an order's row after its district's turn: it gets the carrier where the new order has a row
abbrev pub carried : ℕ → Option NoVal → Option OVal → Option OVal
carried carrier none v_o = v_o
carried carrier (some v_no) none = none
carried carrier (some v_no) (some v_o) = some (record v_o { o_carrier_id = carrier })

-- the order that the vector names as the newest of a district
abbrev pub newest : Array (Array ℕ) → ℕ → ℕ → ℕ
newest pending w d = (pending.cell (w - 1)).cell (d - 1) % uint32_mod

-- The district has its place in the vector.
pub record HasPending (pending : Array (Array ℕ)) (w d : ℕ) : Type 0 where
  pub w_pos : 1 ≤ w
  pub w_fits : w < 2 ^ 16
  pub d_pos : 1 ≤ d
  pub d_fits : d < 2 ^ 8
  pub w_le : w ≤ pending.size
  pub d_le : d ≤ (pending.cell (w - 1)).size

module _ {Tree : Type 0 → Type 0} {F : Type 0} (m : MassTree Tree) where
  -- Where the district's newest new order has a row, the order has one.
  abbrev pub HasOrder : Array (Array ℕ) → ℕ → ℕ → Store Tree F → Type 0
  HasOrder pending w d store =
      (v_no : NoVal)
      → get m little store.table_new_order (no_key w d (newest pending w d)) ≡ some v_no
      → (v_o : OVal) × (get m little store.table_order (o_key w d (newest pending w d)) ≡ some v_o)

  -- After its turn a district has no row for its newest new order, and the order is carried.
  pub record IsServed (pending : Array (Array ℕ)) (w carrier d : ℕ) (store after : Store Tree F)
      : Type 0 where
    pub new_order : get m little after.table_new_order (no_key w d (newest pending w d)) ≡ none
    pub order :
        get m little after.table_order (o_key w d (newest pending w d))
        ≡ carried carrier
            (get m little store.table_new_order (no_key w d (newest pending w d)))
            (get m little store.table_order (o_key w d (newest pending w d)))

  -- The tables and vectors that a delivery leaves alone; the customers keep their credit.
  pub record LeavesAlone (blank : Unassigned F) (store after : Store Tree F) : Type 0 where
    pub pending : after.pending_new_order_per_dis ≡ store.pending_new_order_per_dis
    pub latest : after.latest_order_id_per_customer ≡ store.latest_order_id_per_customer
    pub districts : after.table_district ≡ store.table_district
    pub items : after.table_item ≡ store.table_item
    pub credits : KeepsCredits m blank store.table_customer after.table_customer

  module _ (map : IsMap m) (scanned : IsScanned m) (float : FloatOps F) (blank : Unassigned F)
      (w carrier d : ℕ) (store : Store Tree F) where
    module _ (o : ℕ) where
      serve_district-skips :
          get m little store.table_new_order (no_key w d o) ≡ none
          → serve_district m float blank w carrier d o store ≡ done (true, store)
      unfolding serve_district
      serve_district-skips gone = ground (arith, gone)

      serve_district-delivers :
          (v_no : NoVal) (v_o : OVal) (after : Store Tree F)
          → get m little store.table_new_order (no_key w d o) ≡ some v_no
          → get m little store.table_order (o_key w d o) ≡ some v_o
          → deliver_order m float blank w carrier d o v_o store ≡ done after
          → serve_district m float blank w carrier d o store ≡ done (true, after)
      unfolding serve_district
      serve_district-delivers v_no v_o after there there' e = ground (arith, there, there', e)

      serve_district-bails_out :
          (v_no : NoVal)
          → get m little store.table_new_order (no_key w d o) ≡ some v_no
          → get m little store.table_order (o_key w d o) ≡ none
          → serve_district m float blank w carrier d o store ≡ done (false, store)
      unfolding serve_district
      serve_district-bails_out v_no there gone = ground (arith, there, gone)

    IsDelivered-KeepsCredits :
        (o : ℕ) (v_o : OVal) (after : Store Tree F) (total : F)
        → IsDelivered m float blank w carrier d o v_o store total after
        → KeepsCredits m blank store.table_customer after.table_customer
    unfolding credit_customer
    IsDelivered-KeepsCredits o v_o after total d' =
        let k_c = c_key v_o.o_c_id d w in
        let v_c = or_unassigned (get m little store.table_customer k_c) blank.v_c in
        written-KeepsCredits m blank store.table_customer after.table_customer k_c
          (credit_customer m float v_c total) d'.customer refl d'.other_customers

    module _ (pending : Array (Array ℕ)) (place : HasPending pending w d)
        (same : store.pending_new_order_per_dis ≡ pending) where
      deliver_district-serve :
          deliver_district m float blank w carrier d store
          ≡ serve_district m float blank w carrier d (newest pending w d) store
      unfolding deliver_district
      deliver_district-serve =
          let read : read_pair store.pending_new_order_per_dis w d
              ≡ done ((pending.cell (w - 1)).cell (d - 1)) =
            ap (λ rows. read_pair rows w d) same
            ∙ read_pair_lem pending w d place.w_pos place.w_le (omega (arith, place.w_fits))
                place.d_pos place.d_le (omega (arith, place.d_fits)) in
          rw read

      -- Where the newest new order of a district has no row, the district is skipped.
      pub deliver_district-skips :
          get m little store.table_new_order (no_key w d (newest pending w d)) ≡ none
          → deliver_district m float blank w carrier d store ≡ done (true, store)
      deliver_district-skips gone =
          deliver_district-serve ∙ serve_district-skips (newest pending w d) gone

      -- Where the newest new order of a district has a row and its order has none, the loop over the
      -- districts is to end, and nothing is changed.
      pub deliver_district-bails_out :
          (v_no : NoVal)
          → get m little store.table_new_order (no_key w d (newest pending w d)) ≡ some v_no
          → get m little store.table_order (o_key w d (newest pending w d)) ≡ none
          → deliver_district m float blank w carrier d store ≡ done (false, store)
      deliver_district-bails_out v_no there gone =
          deliver_district-serve ∙ serve_district-bails_out (newest pending w d) v_no there gone

      -- On tables that are maps and are scanned in order, where the order has a row if the district's
      -- newest new order has one: the district's turn returns, and the loop goes on. The new order
      -- then has no row, and the order has the carrier if the new order had one. Each other new
      -- order, and each other order, keeps its row.
      pub deliver_district-IsServed :
          HasOrder pending w d store
          → (after : Store Tree F) × (deliver_district m float blank w carrier d store
              ≡ done (true, after))
            × IsServed pending w carrier d store after
            × LeavesAlone blank store after
            × ((j : NoKey)
                → to_str_key little (no_key w d (newest pending w d)) ≢ to_str_key little j
                → get m little after.table_new_order j ≡ get m little store.table_new_order j)
            × ((j : OKey)
                → to_str_key little (o_key w d (newest pending w d)) ≢ to_str_key little j
                → get m little after.table_order j ≡ get m little store.table_order j)
      deliver_district-IsServed has =
          let o = newest pending w d in
          elim (Option-cases (get m little store.table_new_order (no_key w d o))) [
            | inl gone ↦ (
              store,
              deliver_district-serve ∙ serve_district-skips o gone,
              record { new_order = gone; order = rw gone },
              record {
                pending = refl;
                latest = refl;
                districts = refl;
                items = refl;
                credits = λ k. refl;
              },
              λ j apart. refl,
              λ j apart. refl,
            )
            | inr (v_no, there) ↦
                let (v_o, there') = has v_no there in
                let (total, after, e, d') =
                  deliver_order-returns m float blank w carrier d o v_o store map scanned in
                (
                  after,
                  deliver_district-serve ∙ serve_district-delivers o v_no v_o after there there' e,
                  record { new_order = d'.new_order; order = d'.order ∙ rw (there, there') },
                  record {
                    pending = d'.pending;
                    latest = d'.latest;
                    districts = d'.districts;
                    items = d'.items;
                    credits = IsDelivered-KeepsCredits o v_o after total d';
                  },
                  d'.other_new_orders,
                  d'.other_orders,
                )
          ]
