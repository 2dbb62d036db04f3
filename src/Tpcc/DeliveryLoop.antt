-- ===== src/Tpcc/DeliveryLoop.antt =====
-- benchmark/real_world/tpcc.cpp `txn_delivery`: the loop over the districts, and the whole transaction.
use sidle_baselines.Base.{
  ℕ, zero, suc, ◌+◌, ◌^◌, ◌≤◌, ◌<◌, ◌≡◌, ◌≢◌, refl, sym, ◌∙◌, true, none, inl, inr, arith,
}
use mathlib.Core.Path.{ap₂}
use native.Mathlib.Decide.{dec_lt}
use std.Path.{subst}
use sidle_baselines.Memory.{done, Array}
use sidle_baselines.Bytes.{little}
use sidle_baselines.Keys.Packed.{to_str_key}
use sidle_baselines.Keys.Structs.{NoKey, no_key, no_struct, OKey, o_key, o_struct}
use sidle_baselines.Keys.Apart.{no_key_apart, o_key_apart}
use sidle_baselines.Random.Bounds.{random_number_bounds}
use sidle_baselines.Masstree.{MassTree, IsMap, IsScanned, get}
use sidle_baselines.Tpcc.Values.{FloatOps}
use sidle_baselines.Tpcc.Store.{Store, Unassigned}
use sidle_baselines.Tpcc.NewOrderDraws.{Settings}
use sidle_baselines.Tpcc.Delivery.{deliver_district, deliver_districts, txn_delivery}
use sidle_baselines.Tpcc.DeliveryDistrict.{
  HasPending, HasOrder, IsServed, LeavesAlone, newest, carried, deliver_district-skips,
  deliver_district-IsServed,
}

-- The keys of the newest new orders, or of their orders, of n districts from d on have other bytes.
abbrev pub NewOrderApart : Array (Array ℕ) → ℕ → ℕ → ℕ → NoKey → Type 0
NewOrderApart pending w d n j =
    (k : ℕ)
    → d ≤ k
    → k < d + n
    → to_str_key little (no_key w k (newest pending w k)) ≢ to_str_key little j

abbrev pub OrderApart : Array (Array ℕ) → ℕ → ℕ → ℕ → OKey → Type 0
OrderApart pending w d n j =
    (k : ℕ)
    → d ≤ k
    → k < d + n
    → to_str_key little (o_key w k (newest pending w k)) ≢ to_str_key little j

module _ {Tree : Type 0 → Type 0} {F : Type 0} (m : MassTree Tree) (map : IsMap m)
    (scanned : IsScanned m) (float : FloatOps F) (blank : Unassigned F) (w carrier : ℕ)
    (pending : Array (Array ℕ)) where
  deliver_districts-next :
      (n d : ℕ) (store u : Store Tree F)
      → deliver_district m float blank w carrier d store ≡ done (true, u)
      → deliver_districts m float blank w carrier (suc n) d store
        ≡ deliver_districts m float blank w carrier n (d + 1) u
  unfolding deliver_districts
  deliver_districts-next n d store u e = rw e

  LeavesAlone-trans :
      (a b c : Store Tree F)
      → LeavesAlone m blank a b
      → LeavesAlone m blank b c
      → LeavesAlone m blank a c
  LeavesAlone-trans a b c h k = record {
    pending = k.pending ∙ h.pending;
    latest = k.latest ∙ h.latest;
    districts = k.districts ∙ h.districts;
    items = k.items ∙ h.items;
    credits = λ j. k.credits j ∙ h.credits j;
  }

  new_orders_apart :
      (d k : ℕ)
      → HasPending pending w d
      → HasPending pending w k
      → d ≢ k
      → to_str_key little (no_key w d (newest pending w d))
        ≢ to_str_key little (no_key w k (newest pending w k))
  new_orders_apart d k at_d at_k apart =
      no_key_apart w d (newest pending w d) w k (newest pending w k) at_d.w_fits at_d.d_fits
        (omega arith) at_k.w_fits at_k.d_fits (omega arith) (inr (inl apart))

  orders_apart :
      (d k : ℕ)
      → HasPending pending w d
      → HasPending pending w k
      → d ≢ k
      → to_str_key little (o_key w d (newest pending w d))
        ≢ to_str_key little (o_key w k (newest pending w k))
  orders_apart d k at_d at_k apart =
      o_key_apart w d (newest pending w d) w k (newest pending w k) at_d.w_fits at_d.d_fits
        (omega arith) at_k.w_fits at_k.d_fits (omega arith) (inr (inl apart))

  pub deliver_districts-IsServed :
      (n d : ℕ) (store : Store Tree F)
      → store.pending_new_order_per_dis ≡ pending
      → ((k : ℕ) → d ≤ k → k < d + n → HasPending pending w k)
      → ((k : ℕ) → d ≤ k → k < d + n → HasOrder m pending w k store)
      → (after : Store Tree F) × (deliver_districts m float blank w carrier n d store ≡ done after)
        × ((k : ℕ) → d ≤ k → k < d + n → IsServed m pending w carrier k store after)
        × LeavesAlone m blank store after
        × ((j : NoKey)
            → NewOrderApart pending w d n j
            → get m little after.table_new_order j ≡ get m little store.table_new_order j)
        × ((j : OKey)
            → OrderApart pending w d n j
            → get m little after.table_order j ≡ get m little store.table_order j)
  unfolding deliver_districts
  deliver_districts-IsServed zero d store same places has = (
    store,
    refl,
    λ k lo hi. absurd (omega arith),
    record { pending = refl; latest = refl; districts = refl; items = refl; credits = λ k. refl },
    λ j apart. refl,
    λ j apart. refl,
  )
  deliver_districts-IsServed (suc n) d store same places has =
      let place : HasPending pending w d = places d (omega arith) (omega arith) in
      let (u, e, served, alone, no_kept, o_kept) =
        deliver_district-IsServed m map scanned float blank w carrier d store pending place same
          (has d (omega arith) (omega arith)) in
      let later : (k : ℕ) → d + 1 ≤ k → k < d + 1 + n → HasPending pending w k =
        λ k lo hi. places k (omega arith) (omega arith) in
      let no_still : (k : ℕ)
          → d + 1 ≤ k
          → k < d + 1 + n
          → get m little u.table_new_order (no_key w k (newest pending w k))
            ≡ get m little store.table_new_order (no_key w k (newest pending w k)) =
        λ k lo hi.
          no_kept (no_key w k (newest pending w k))
            (new_orders_apart d k place (later k lo hi) (omega arith)) in
      let o_still : (k : ℕ)
          → d + 1 ≤ k
          → k < d + 1 + n
          → get m little u.table_order (o_key w k (newest pending w k))
            ≡ get m little store.table_order (o_key w k (newest pending w k)) =
        λ k lo hi.
          o_kept (o_key w k (newest pending w k))
            (orders_apart d k place (later k lo hi) (omega arith)) in
      let (after, e', rest, alone', no_rest, o_rest) =
        deliver_districts-IsServed n (d + 1) u (alone.pending ∙ same) later (λ k lo hi v_no there.
          let (v_o, there') =
            has k (omega arith) (omega arith) v_no (sym (no_still k lo hi) ∙ there) in
          (v_o, o_still k lo hi ∙ there')) in
      let first : IsServed m pending w carrier d store after = record {
        new_order =
            no_rest (no_key w d (newest pending w d))
              (λ k lo hi. new_orders_apart k d (later k lo hi) place (omega arith))
            ∙ served.new_order;
        order =
            o_rest (o_key w d (newest pending w d))
              (λ k lo hi. orders_apart k d (later k lo hi) place (omega arith))
            ∙ served.order;
      } in
      (
        after,
        deliver_districts-next n d store u e ∙ e',
        λ k lo hi. elim (dec_lt d k) [
          | yes above ↦
              let in_rest = rest k (omega arith) (omega arith) in
              record {
                new_order = in_rest.new_order;
                order =
                    in_rest.order
                    ∙ ap₂ (carried carrier) (no_still k (omega arith) (omega arith))
                        (o_still k (omega arith) (omega arith));
              }
          | no here ↦
              let at : d ≡ k = omega arith in
              subst (λ x. IsServed m pending w carrier x store after) at first
        ],
        LeavesAlone-trans store u after alone alone',
        λ j apart.
            no_rest j (λ k lo hi. apart k (omega arith) (omega arith))
            ∙ no_kept j (apart d (omega arith) (omega arith)),
        λ j apart.
            o_rest j (λ k lo hi. apart k (omega arith) (omega arith))
            ∙ o_kept j (apart d (omega arith) (omega arith)),
      )

  -- Where no district's newest new order has a row, the loop changes nothing.
  pub deliver_districts-skip :
      (n d : ℕ) (store : Store Tree F)
      → store.pending_new_order_per_dis ≡ pending
      → ((k : ℕ) → d ≤ k → k < d + n → HasPending pending w k)
      → ((k : ℕ)
          → d ≤ k
          → k < d + n
          → get m little store.table_new_order (no_key w k (newest pending w k)) ≡ none)
      → deliver_districts m float blank w carrier n d store ≡ done store
  unfolding deliver_districts
  deliver_districts-skip zero d store same places gone = refl
  deliver_districts-skip (suc n) d store same places gone =
      let e =
        deliver_district-skips m map scanned float blank w carrier d store pending
          (places d (omega arith) (omega arith)) same (gone d (omega arith) (omega arith)) in
      deliver_districts-next n d store store e
      ∙ deliver_districts-skip n (d + 1) store same
          (λ k lo hi. places k (omega arith) (omega arith))
          (λ k lo hi. gone k (omega arith) (omega arith))

module _ {Tree : Type 0 → Type 0} {F : Type 0} (m : MassTree Tree) (map : IsMap m)
    (scanned : IsScanned m) (float : FloatOps F) (blank : Unassigned F) (set : Settings)
    (some_district : 1 ≤ set.num_district_per_warehouse)
    (few_districts : set.num_district_per_warehouse < 2 ^ 8) (w : ℕ) (store : Store Tree F)
    (places : (d : ℕ)
      → 1 ≤ d
      → d ≤ set.num_district_per_warehouse
      → HasPending store.pending_new_order_per_dis w d)
    (has : (d : ℕ)
      → 1 ≤ d
      → d ≤ set.num_district_per_warehouse
      → HasOrder m store.pending_new_order_per_dis w d store) where
  -- On tables that are maps and are scanned in order, with 1 to 255 districts that have their places
  -- in the vector of pending new orders, where the newest new order of each has an order if it has a
  -- row: `txn_delivery` returns from any seed, with a carrier between 1 and the number of districts.
  -- No district's newest new order has a row then, and each of their orders has the carrier if its
  -- new order had a row. Every other new order, and every other order, keeps its row.
  pub txn_delivery-IsServed :
      (seed : ℕ)
      → (carrier : ℕ) × (s : ℕ) × (after : Store Tree F) × (txn_delivery m float blank set w store
            seed
          ≡ done (after, s))
        × (1 ≤ carrier)
        × (carrier ≤ set.num_district_per_warehouse)
        × ((d : ℕ)
            → 1 ≤ d
            → d ≤ set.num_district_per_warehouse
            → IsServed m store.pending_new_order_per_dis w carrier d store after)
        × LeavesAlone m blank store after
        × ((j : NoKey)
            → NewOrderApart store.pending_new_order_per_dis w 1 set.num_district_per_warehouse j
            → get m little after.table_new_order j ≡ get m little store.table_new_order j)
        × ((j : OKey)
            → OrderApart store.pending_new_order_per_dis w 1 set.num_district_per_warehouse j
            → get m little after.table_order j ≡ get m little store.table_order j)
  unfolding txn_delivery
  txn_delivery-IsServed seed =
      let pending = store.pending_new_order_per_dis in
      let n = set.num_district_per_warehouse in
      let (carrier, s, e, lo, hi, _) =
        random_number_bounds 1 n seed some_district (omega (arith, few_districts)) in
      let (after, e', served, alone, no_kept, o_kept) =
        deliver_districts-IsServed m map scanned float blank w carrier pending n 1 store refl
          (λ k k_lo k_hi. places k k_lo (omega arith)) (λ k k_lo k_hi. has k k_lo (omega arith)) in
      (
        carrier,
        s,
        after,
        rw (e, e'),
        lo,
        hi,
        λ d d_lo d_hi. served d d_lo (omega arith),
        alone,
        no_kept,
        o_kept,
      )

  -- On such tables, `txn_delivery` returns from any seed, and a second delivery right after it, from any
  -- seed, returns and changes nothing: what the first one left in the table of new orders stays there.
  pub txn_delivery-again :
      (seed seed' : ℕ)
      → (s s' : ℕ) × (after : Store Tree F) × (txn_delivery m float blank set w store seed
          ≡ done (after, s))
        × (txn_delivery m float blank set w after seed' ≡ done (after, s'))
  unfolding txn_delivery
  txn_delivery-again seed seed' =
      let n = set.num_district_per_warehouse in
      let (carrier, s, after, e, _, _, served, alone, _, _) = txn_delivery-IsServed seed in
      let (carrier', s', e', _, _, _) =
        random_number_bounds 1 n seed' some_district (omega (arith, few_districts)) in
      let skipped =
        deliver_districts-skip m map scanned float blank w carrier' store.pending_new_order_per_dis
          n 1 after alone.pending (λ k k_lo k_hi. places k k_lo (omega arith))
          (λ k k_lo k_hi. (served k k_lo (omega arith)).new_order) in
      (s, s', after, e, rw (e', skipped))
