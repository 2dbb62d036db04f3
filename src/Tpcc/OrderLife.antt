-- ===== src/Tpcc/OrderLife.antt =====
-- benchmark/real_world/tpcc.cpp: a new order and the delivery that follows it.
use sidle_baselines.Base.{
  ℕ, ◌-◌, ◌%◌, ◌^◌, ◌<◌, ◌≡◌, refl, sym, ap, ◌∙◌, true, Option, none, some, List, ◌∷◌, ◌++◌, length,
  arith,
}
use std.Path.{subst}
use mathlib.Core.Path.{ap₂}
use sidle_baselines.Memory.{Run, done, fault}
use sidle_baselines.Bytes.{little}
use sidle_baselines.Keys.Structs.{
  d_key, d_struct, no_key, no_struct, o_key, o_struct, i_key, i_struct,
}
use sidle_baselines.Masstree.{MassTree, IsMap, IsScanned, get}
use sidle_baselines.Tpcc.Values.{FloatOps, DVal}
use sidle_baselines.Tpcc.Store.{Store, Unassigned, uint32_mod}
use sidle_baselines.Tpcc.Places.{pair_written, pair_written-at, pair_written-size}
use sidle_baselines.Tpcc.NewOrderDraws.{Line, NewOrderDraw}
use sidle_baselines.Tpcc.NewOrder.{run_new_order}
use sidle_baselines.Tpcc.Lines.{HasItems}
use sidle_baselines.Tpcc.NewOrderEffect.{HasPlaces, order_id, order_row}
use sidle_baselines.Tpcc.NewOrderOutcome.{run_new_order-commits, run_new_order-aborts}
use sidle_baselines.Tpcc.NewOrderKeeps.{run_new_order-IsEntered}
use sidle_baselines.Tpcc.Delivery.{deliver_district}
use sidle_baselines.Tpcc.DeliveryDistrict.{
  HasPending, newest, carried, deliver_district-IsServed, deliver_district-skips,
}

-- Of two calls that return, the same call leaves the same store.
same_store :
    {A B : Type 0} (r : Run (A × B)) (a a' : A) (b b' : B)
    → r ≡ done (a, b)
    → r ≡ done (a', b')
    → b ≡ b'
same_store {A} {B} r a a' b b' p q = ap (store_of b) (sym p ∙ q)
  where
    store_of : B → Run (A × B) → B
    store_of default (done x) = x.1
    store_of default (fault e) = default

module _ {Tree : Type 0 → Type 0} {F : Type 0} (m : MassTree Tree) (map : IsMap m)
    (scanned : IsScanned m) (float : FloatOps F) (blank : Unassigned F) (store : Store Tree F)
    (w carrier : ℕ) (draw : NewOrderDraw)
    (places : HasPlaces store w draw.district_id draw.customer_id) where
  -- the district's place, and its newest order, after the new order
  named :
      (total : Option F) (after : Store Tree F)
      → run_new_order m float blank w draw store ≡ done (total, after)
      → HasPending after.pending_new_order_per_dis w draw.district_id
        × (newest after.pending_new_order_per_dis w draw.district_id
            ≡ order_id m float blank store w draw)
  named total after e =
      let (total', after', e', entered) =
        run_new_order-IsEntered m map float blank store w draw places in
      let same =
        same_store (run_new_order m float blank w draw store) total' total after' after e' e in
      let rows = store.pending_new_order_per_dis in
      let d = draw.district_id in
      let o = order_id m float blank store w draw in
      let written : pair_written rows w d o ≡ after.pending_new_order_per_dis =
        sym entered.pending_is ∙ ap {A = Store Tree F} (λ s. s.pending_new_order_per_dis) same in
      let wrapped : o % uint32_mod ≡ o = omega arith in
      subst (λ p. HasPending p w d × (newest p w d ≡ o)) written
        (
          record {
            w_pos = places.w_pos;
            w_fits = places.w_fits;
            d_pos = places.d_pos;
            d_fits = places.d_fits;
            w_le = places.pending_w;
            d_le = omega (arith, pair_written-size rows w d o (w - 1), places.pending_d);
          },
          ap (λ x. x % uint32_mod) (pair_written-at rows w d o) ∙ wrapped,
        )

  -- On tables that are maps and are scanned in order, under the conditions on which a new order commits:
  -- the next turn of its district in a delivery returns, and the loop goes on. The new order then has no
  -- row, and the order is as it was entered, with the carrier.
  pub new_order-delivered :
      HasItems m store.table_item draw.lines
      → length draw.lines < 2 ^ 8
      → (total : F) × (entered after : Store Tree F) × (run_new_order m float blank w draw store
          ≡ done (some total, entered))
        × (deliver_district m float blank w carrier draw.district_id entered ≡ done (true, after))
        × (get m little after.table_new_order
              (no_key w draw.district_id (order_id m float blank store w draw))
            ≡ none)
        × (get m little after.table_order
              (o_key w draw.district_id (order_id m float blank store w draw))
            ≡ some (record (order_row m float blank store w draw) { o_carrier_id = carrier }))
  new_order-delivered has few =
      let d = draw.district_id in
      let o = order_id m float blank store w draw in
      let (total, entered, e, _, at_no, at_o, _, _) =
        run_new_order-commits m map float blank store w draw places has few in
      let rows = entered.pending_new_order_per_dis in
      let (place, is) = named (some total) entered e in
      let no_there = ap (λ x. get m little entered.table_new_order (no_key w d x)) is ∙ at_no in
      let o_there = ap (λ x. get m little entered.table_order (o_key w d x)) is ∙ at_o in
      let (after, e', served, _, _, _) =
        deliver_district-IsServed m map scanned float blank w carrier d entered rows place refl
          (λ v_no there. (order_row m float blank store w draw, o_there)) in
      (
        total,
        entered,
        after,
        e,
        e',
        ap (λ x. get m little after.table_new_order (no_key w d x)) (sym is) ∙ served.new_order,
        ap (λ x. get m little after.table_order (o_key w d x)) (sym is)
            ∙ served.order
            ∙ ap₂ (carried carrier) no_there o_there,
      )

  -- Under the conditions on which a new order aborts, on tables that are maps and are scanned in order: the
  -- next turn of its district in a delivery changes nothing, whichever other new orders it has.
  pub aborted-skipped :
      (v_d : DVal F) (before : List Line) (line : Line) (after : List Line)
      → get m little store.table_district (d_key w draw.district_id) ≡ some v_d
      → v_d.d_next_o_id < uint32_mod
      → draw.lines ≡ before ++ line ∷ after
      → HasItems m store.table_item before
      → get m little store.table_item (i_key line.item_id) ≡ none
      → (end : Store Tree F) × (run_new_order m float blank w draw store ≡ done (none, end))
        × (deliver_district m float blank w carrier draw.district_id end ≡ done (true, end))
  aborted-skipped v_d before line after there fits split has gone =
      let d = draw.district_id in
      let (end, e, _, at_no, _, _) =
        run_new_order-aborts m map float blank store w draw places v_d before line after there fits
          split has gone in
      let rows = end.pending_new_order_per_dis in
      let (place, is) = named none end e in
      let no_gone = ap (λ x. get m little end.table_new_order (no_key w d x)) is ∙ at_no in
      (
        end,
        e,
        deliver_district-skips m map scanned float blank w carrier d end rows place refl no_gone,
      )
