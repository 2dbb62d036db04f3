-- ===== src/Tpcc/SoundDelivery.antt =====
-- benchmark/real_world/tpcc.cpp `txn_delivery`: a delivery keeps the vectors and the orders sound.
use sidle_baselines.Base.{ℕ, ◌^◌, ◌≤◌, ◌<◌, ◌≡◌, ◌≢◌, refl, sym, ◌∙◌, some, none, inl, arith}
use std.Path.{subst}
use native.Mathlib.Decide.{ℕ_discrete}
use sidle_baselines.Memory.{done}
use sidle_baselines.Bytes.{little}
use sidle_baselines.Keys.Structs.{no_key, no_struct, o_key, o_struct}
use sidle_baselines.Keys.Apart.{no_key_apart, o_key_apart}
use sidle_baselines.Masstree.{MassTree, IsMap, IsScanned, get}
use sidle_baselines.Tpcc.Values.{FloatOps}
use sidle_baselines.Tpcc.Store.{Store, Unassigned}
use sidle_baselines.Tpcc.DeliveryDistrict.{HasPending, HasOrder, IsServed, newest}
use sidle_baselines.Tpcc.Delivery.{deliver_districts}
use sidle_baselines.Tpcc.Credits.{KeepsCredits}
use sidle_baselines.Tpcc.DeliveryLoop.{deliver_districts-IsServed}
use sidle_baselines.Tpcc.Sound.{IsShaped, IsSound, IsSound-HasPending}

none≢some : {A : Type 0} (a : A) → none ≢ some a
none≢some a e = cc

module _ {Tree : Type 0 → Type 0} {F : Type 0} (m : MassTree Tree) (warehouses districts : ℕ)
    (map : IsMap m) (scanned : IsScanned m) (float : FloatOps F) (blank : Unassigned F)
    (few_warehouses : warehouses < 2 ^ 16) (few_districts : districts < 2 ^ 8)
    (store : Store Tree F) (sound : IsSound m warehouses districts store) (w : ℕ) (w_lo : 1 ≤ w)
    (w_hi : w ≤ warehouses) where
  -- On tables that are maps and are scanned in order, with fewer than 2^16 warehouses and 256 districts:
  -- where the vectors have a place for each warehouse, district and customer, and a district's newest
  -- new order has an order if it has a row, the loop over all the districts returns with no district
  -- that ends it early, and this holds again; the customers keep their credit.
  pub deliver_districts-IsSound :
      (carrier : ℕ)
      → (after : Store Tree F) × (deliver_districts m float blank w carrier districts 1 store
          ≡ done after)
        × ((d : ℕ)
            → 1 ≤ d
            → d ≤ districts
            → IsServed m store.pending_new_order_per_dis w carrier d store after)
        × IsSound m warehouses districts after
        × KeepsCredits m blank store.table_customer after.table_customer
  deliver_districts-IsSound carrier =
      let rows = store.pending_new_order_per_dis in
      let place : (w' d : ℕ)
          → 1 ≤ w'
          → w' ≤ warehouses
          → 1 ≤ d
          → d ≤ districts
          → HasPending rows w' d =
        λ w' d lo' hi' lo hi.
          IsSound-HasPending m warehouses districts few_warehouses few_districts store w' d sound
            lo' hi' lo hi in
      let (after, e, served, alone, no_kept, o_kept) =
        deliver_districts-IsServed m map scanned float blank w carrier rows districts 1 store refl
          (λ d lo hi. place w d w_lo w_hi lo (omega arith))
          (λ d lo hi. sound.orders w d w_lo w_hi lo (omega arith)) in
      (
        after,
        e,
        λ d lo hi. served d lo (omega arith),
        record {
          shape =
              subst (λ p. IsShaped warehouses districts p after.latest_order_id_per_customer)
                (sym alone.pending)
                (subst (IsShaped warehouses districts rows) (sym alone.latest) sound.shape);
          orders = λ w' d' w_lo' w_hi' d_lo' d_hi'.
              subst (λ p. HasOrder m p w' d' after) (sym alone.pending)
                (elim (ℕ_discrete w w') [
                  | yes same ↦ λ v_no there.
                      let gone =
                        subst
                          (λ x.
                            get m little after.table_new_order (no_key x d' (newest rows x d'))
                            ≡ none)
                          same (served d' d_lo' (omega arith)).new_order in
                      absurd (none≢some v_no (sym gone ∙ there))
                  | no apart ↦ λ v_no there.
                      let n = newest rows w' d' in
                      let no_still = no_kept (no_key w' d' n) (λ k lo hi.
                        no_key_apart w k (newest rows w k) w' d' n (omega arith) (omega arith)
                          (omega arith) (omega arith) (omega arith) (omega arith) (inl apart)) in
                      let o_still = o_kept (o_key w' d' n) (λ k lo hi.
                        o_key_apart w k (newest rows w k) w' d' n (omega arith) (omega arith)
                          (omega arith) (omega arith) (omega arith) (omega arith) (inl apart)) in
                      let (v_o, there') =
                        sound.orders w' d' w_lo' w_hi' d_lo' d_hi' v_no (sym no_still ∙ there) in
                      (v_o, o_still ∙ there')
                ]);
        },
        alone.credits,
      )
