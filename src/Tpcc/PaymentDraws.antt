-- ===== src/Tpcc/PaymentDraws.antt =====
-- benchmark/real_world/tpcc.cpp `txn_payment`: what the transaction draws. The customer is always drawn
-- by number: the branch that looks for one by the last name is under `if (false)`.
use sidle_baselines.Base.{ℕ, ◌≤◌, ◌≡◌, refl, Bool, true, false, leb, ◌==◌, if◌then◌else◌, arith}
use sidle_baselines.Memory.{done}
use sidle_baselines.Random.FastRandom.{Draw, ◌>>=◌, pure}
use sidle_baselines.Random.Draws.{random_number, get_customer_id, num_customer_per_district}
use sidle_baselines.Random.Bounds.{random_number_bounds, get_customer_id_bounds}
use sidle_baselines.Tpcc.NewOrderDraws.{Settings, other_warehouse}

-- the amount in cents, before it is a float
pub record PaymentDraw : Type 0 where
  pub district_id : ℕ
  pub customer_district_id : ℕ
  pub customer_warehouse_id : ℕ
  pub payment_cents : ℕ
  pub customer_id : ℕ

module _ (set : Settings) (fuel warehouse_id : ℕ) where
  -- `warehouse_num == 1 || RandomNumber(r, 1, 100) <= 85`
  unfoldable pub pays_at_home : Draw Bool
  pays_at_home =
      if set.warehouse_num == 1
      then pure true
      else do percent ← random_number 1 100; pure (leb percent 85)

  -- the customer's district and warehouse
  unfoldable pub draw_customer_place : ℕ → Bool → Draw (ℕ × ℕ)
  draw_customer_place district true = pure (district, warehouse_id)
  draw_customer_place district false = do
    d ← random_number 1 10
    w ← other_warehouse fuel set.warehouse_num warehouse_id
    pure (d, w)

  unfoldable pub draw_payment : Draw PaymentDraw
  unfolding pays_at_home draw_customer_place
  draw_payment = do
    district ← random_number 1 10
    home ← pays_at_home
    place ← draw_customer_place district home
    cents ← random_number 100 500000
    customer ← get_customer_id
    pure (record {
      district_id = district;
      customer_district_id = place.0;
      customer_warehouse_id = place.1;
      payment_cents = cents;
      customer_id = customer;
    })

  -- With one warehouse, `txn_payment` draws from any seed one of ten districts, a customer of that
  -- district and of the warehouse, and an amount of 1.00 to 5000.00.
  pub draw_payment_bounds :
      set.warehouse_num ≡ 1
      → (seed : ℕ)
      → (draw : PaymentDraw) × (s : ℕ) × (draw_payment seed ≡ done (draw, s))
        × (1 ≤ draw.district_id)
        × (draw.district_id ≤ 10)
        × (draw.customer_district_id ≡ draw.district_id)
        × (draw.customer_warehouse_id ≡ warehouse_id)
        × (100 ≤ draw.payment_cents)
        × (draw.payment_cents ≤ 500000)
        × (1 ≤ draw.customer_id)
        × (draw.customer_id ≤ num_customer_per_district)
  unfolding draw_payment pays_at_home draw_customer_place
  draw_payment_bounds one seed =
      let (district, s, e, d_lo, d_hi, _) =
        random_number_bounds 1 10 seed (omega arith) (omega arith) in
      let home : (set.warehouse_num == 1) ≡ true = ground (arith, one) in
      let (cents, t, e', lo, hi, _) =
        random_number_bounds 100 500000 s (omega arith) (omega arith) in
      let (customer, u, e'', c_lo, c_hi, _) = get_customer_id_bounds t in
      (
        record {
          district_id = district;
          customer_district_id = district;
          customer_warehouse_id = warehouse_id;
          payment_cents = cents;
          customer_id = customer;
        },
        u,
        rw (e, home, e', e''),
        d_lo,
        d_hi,
        refl,
        refl,
        lo,
        hi,
        c_lo,
        c_hi,
      )
