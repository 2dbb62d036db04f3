-- ===== src/Tpcc/HackInfo.antt =====
-- benchmark/real_world/tpcc.cpp `run_tpcc`: the two vectors of vectors as they are created, with the checks of
-- their sizes.
use sidle_baselines.Base.{ℕ, ◌≤◌, ◌≡◌, true, ◌==◌, arith}
use sidle_baselines.Memory.{Run, done, ◌>>=◌, ◌>>◌, check, Array, fresh, read, read_lem}
use sidle_baselines.Random.Draws.{num_customer_per_district}
use sidle_baselines.Tpcc.NewOrderDraws.{Settings}
use sidle_baselines.Tpcc.Sound.{IsShaped}

abbrev pub fresh_pending : Settings → Array (Array ℕ)
fresh_pending set = fresh (fresh 3000 set.num_district_per_warehouse) set.warehouse_num

abbrev pub fresh_latest : Settings → Array (Array (Array ℕ))
fresh_latest set =
    fresh (fresh (fresh 3000 num_customer_per_district) set.num_district_per_warehouse)
      set.warehouse_num

-- `pending_new_order_per_dis` and `latest_order_id_per_customer`
unfoldable pub create_hack_info : Settings → Run (Array (Array ℕ) × Array (Array (Array ℕ)))
create_hack_info set = do
  let pending = fresh_pending set
  let latest = fresh_latest set
  check (pending.size == set.warehouse_num)
  check (latest.size == set.warehouse_num)
  latest_0 ← read latest 0
  check (latest_0.size == set.num_district_per_warehouse)
  pending_0 ← read pending 0
  check (pending_0.size == set.num_district_per_warehouse)
  latest_0_0 ← read latest_0 0
  check (latest_0_0.size == num_customer_per_district)
  done (pending, latest)

same_size : (n : ℕ) → (n == n) ≡ true
same_size n = ground arith

-- With a warehouse and a district or more, the vectors are created, with a place for each warehouse, district
-- and customer.
pub create_hack_info-IsShaped :
    (set : Settings)
    → 1 ≤ set.warehouse_num
    → 1 ≤ set.num_district_per_warehouse
    → (create_hack_info set ≡ done (fresh_pending set, fresh_latest set))
      × IsShaped set.warehouse_num set.num_district_per_warehouse
          (fresh_pending set)
          (fresh_latest set)
unfolding create_hack_info
create_hack_info-IsShaped set some_warehouse some_district = (
  ground (
    arith,
    same_size set.warehouse_num,
    read_lem (fresh_latest set) 0 (omega arith),
    same_size set.num_district_per_warehouse,
    read_lem (fresh_pending set) 0 (omega arith),
    read_lem ((fresh_latest set).cell 0) 0 (omega arith),
  ),
  record {
    pending_w = omega arith;
    pending_d = λ w lo hi. omega arith;
    latest_w = omega arith;
    latest_d = λ w lo hi. omega arith;
    latest_c = λ w d w_lo w_hi d_lo d_hi. omega arith;
  },
)
