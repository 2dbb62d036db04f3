-- ===== src/Tpcc/Store.antt =====
-- benchmark/real_world/tpcc.cpp and tpcc_loader.h: what the transactions share. Each table is a tree of
-- its rows.
use sidle_baselines.Base.{ℕ, ◌^◌, Option, none, some}
use sidle_baselines.Memory.{Run, ◌>>=◌, Array, read, write, sub_size}
use sidle_baselines.Tpcc.Values.{WVal, DVal, CVal, HVal, NoVal, OVal, OlVal, IVal, SVal}

pub record Store (Tree : Type 0 → Type 0) (F : Type 0) : Type 0 where
  pub table_warehouse : Tree (WVal F)
  pub table_district : Tree (DVal F)
  pub table_customer : Tree (CVal F)
  pub table_history : Tree (HVal F)
  pub table_new_order : Tree NoVal
  pub table_order : Tree OVal
  pub table_order_line : Tree (OlVal F)
  pub table_item : Tree (IVal F)
  pub table_stock : Tree (SVal F)
  -- the vectors of vectors
  pub pending_new_order_per_dis : Array (Array ℕ)
  pub latest_order_id_per_customer : Array (Array (Array ℕ))
  -- `tl_hack` of the worker
  pub tl_hack : ℕ

-- What a row that is declared holds before it is assigned: the code reads on after a `get` that missed.
pub record Unassigned (F : Type 0) : Type 0 where
  pub v_w : WVal F
  pub v_d : DVal F
  pub v_c : CVal F
  pub v_s : SVal F

abbrev pub or_unassigned : {V : Type 0} → Option V → V → V
or_unassigned (some v) v' = v
or_unassigned none v' = v'

-- uint32_t
abbrev pub uint32_mod : ℕ
uint32_mod = 2 ^ 32

-- `rows[i - 1][j - 1] = x`
unfoldable pub write_pair : {A : Type 0} → Array (Array A) → ℕ → ℕ → A → Run (Array (Array A))
write_pair rows i j x = do
  row ← read rows (sub_size i 1)
  row' ← write row (sub_size j 1) x
  write rows (sub_size i 1) row'

-- `rows[i - 1][j - 1][k - 1] = x`
unfoldable pub write_triple :
    {A : Type 0} → Array (Array (Array A)) → ℕ → ℕ → ℕ → A → Run (Array (Array (Array A)))
unfolding write_pair
write_triple rows i j k x = do
  row ← read rows (sub_size i 1)
  row' ← write_pair row j k x
  write rows (sub_size i 1) row'

-- `rows[i - 1][j - 1]`
unfoldable pub read_pair : {A : Type 0} → Array (Array A) → ℕ → ℕ → Run A
read_pair rows i j = do row ← read rows (sub_size i 1); read row (sub_size j 1)

-- `rows[i - 1][j - 1][k - 1]`
unfoldable pub read_triple : {A : Type 0} → Array (Array (Array A)) → ℕ → ℕ → ℕ → Run A
unfolding read_pair
read_triple rows i j k = do row ← read rows (sub_size i 1); read_pair row j k
