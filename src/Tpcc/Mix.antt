-- ===== src/Tpcc/Mix.antt =====
-- benchmark/real_world/tpcc.cpp `run_worker`: the choice of a transaction by the `ratio`s.
use sidle_baselines.Base.{ℕ, zero, suc, ◌+◌, Bool, true, false, leb, if◌then◌else◌}

-- `ratio`, in percent; the elements are ints, which are taken not to be negative
pub record Ratio : Type 0 where
  pub new_order : ℕ
  pub payment : ℕ
  pub delivery : ℕ
  pub order_status : ℕ
  pub stock_level : ℕ

pub data Transaction : Type 0 where
  new_order payment delivery order_status stock_level : Transaction

-- the transaction for a number d from 1 to 100
unfoldable pub choose : Ratio → ℕ → Transaction
choose ratio d =
    if leb d ratio.new_order
    then new_order
    else if leb d (ratio.new_order + ratio.payment)
    then payment
    else if leb d (ratio.new_order + ratio.payment + ratio.delivery)
    then delivery
    else if leb d (ratio.new_order + ratio.payment + ratio.delivery + ratio.order_status)
    then order_status
    else stock_level

abbrev same_transaction : Transaction → Transaction → Bool
same_transaction new_order new_order = true
same_transaction payment payment = true
same_transaction delivery delivery = true
same_transaction order_status order_status = true
same_transaction stock_level stock_level = true
same_transaction _ _ = false

-- for how many of the numbers from 1 to n the transaction is chosen
unfoldable pub times_chosen : Ratio → Transaction → ℕ → ℕ
times_chosen ratio t zero = 0
times_chosen ratio t (suc n) =
    times_chosen ratio t n + (if same_transaction (choose ratio (suc n)) t then 1 else 0)

-- the share that a ratio gives a transaction
abbrev pub share : Ratio → Transaction → ℕ
share ratio new_order = ratio.new_order
share ratio payment = ratio.payment
share ratio delivery = ratio.delivery
share ratio order_status = ratio.order_status
share ratio stock_level = ratio.stock_level

-- the sum of the ratios before that of a transaction
abbrev before : Ratio → Transaction → ℕ
before ratio new_order = 0
before ratio payment = ratio.new_order
before ratio delivery = ratio.new_order + ratio.payment
before ratio order_status = ratio.new_order + ratio.payment + ratio.delivery
before ratio stock_level = ratio.new_order + ratio.payment + ratio.delivery + ratio.order_status
