-- ===== src/Tpcc/Values.antt =====
-- benchmark/real_world/tpcc.h: the rows of the tables. A float is of a type F, with the operations that
-- the transactions apply to it as a parameter; a `varibale_str` is a list of bytes.
use sidle_baselines.Base.{ℕ, Bool, List}

-- The float arithmetic of the machine.
pub record FloatOps (F : Type 0) : Type 0 where
  pub of_int : ℕ → F
  pub add : F → F → F
  pub sub : F → F → F
  pub mul : F → F → F
  -- `1.0 * quantity * price`, in double, as a float
  pub line_amount : ℕ → F → F
  -- `(float)(n / 100.0)`
  pub of_cents : ℕ → F

pub record WVal (F : Type 0) : Type 0 where
  pub w_ytd : F
  pub w_tax : F
  pub w_name : List ℕ
  pub w_street_1 : List ℕ
  pub w_street_2 : List ℕ
  pub w_city : List ℕ
  pub w_state : List ℕ
  pub w_zip : List ℕ

pub record DVal (F : Type 0) : Type 0 where
  pub d_ytd : F
  pub d_tax : F
  pub d_next_o_id : ℕ
  pub d_name : List ℕ
  pub d_street1 : List ℕ
  pub d_street2 : List ℕ
  pub d_city : List ℕ
  pub d_state : List ℕ
  pub d_zip : List ℕ

pub record CVal (F : Type 0) : Type 0 where
  pub c_discount : F
  pub c_credit_lim : F
  pub c_balance : F
  pub c_ytd_payment : F
  pub c_payment_cnt : ℕ
  pub c_delivery_cnt : ℕ
  pub c_since : ℕ
  pub c_credit : List ℕ
  pub c_last : List ℕ
  pub c_first : List ℕ
  pub c_street_1 : List ℕ
  pub c_street_2 : List ℕ
  pub c_city : List ℕ
  pub c_state : List ℕ
  pub c_zip : List ℕ
  pub c_phone : List ℕ
  pub c_middle : List ℕ
  pub c_data : List ℕ

pub record NoVal : Type 0 where
  pub no_dummy : List ℕ

pub record OVal : Type 0 where
  pub o_c_id : ℕ
  pub o_carrier_id : ℕ
  pub o_ol_cnt : ℕ
  pub o_all_local : Bool
  pub o_entry_d : ℕ

pub record OlVal (F : Type 0) : Type 0 where
  pub ol_i_id : ℕ
  pub ol_delivery_d : ℕ
  pub ol_amount : F
  pub ol_supply_w_id : ℕ
  pub ol_quantity : ℕ

pub record IVal (F : Type 0) : Type 0 where
  pub i_price : F
  pub i_name : List ℕ
  pub i_data : List ℕ
  pub i_im_id : ℕ

pub record SVal (F : Type 0) : Type 0 where
  pub s_quantity : ℕ
  pub s_ytd : F
  pub s_order_cnt : ℕ
  pub s_remote_cnt : ℕ

pub record HVal (F : Type 0) : Type 0 where
  pub h_amount : F
  pub h_data : List ℕ
