-- ===== src/Tpcc/Warehouses.antt =====
-- benchmark/real_world/tpcc.cpp `run_tpcc`: how the warehouses are dealt out to the worker threads.
use native.Mathlib.Nat.{mul-suc, mul-zero, mul_comm, div-add-mod', div-eq_of_lt}
use mathlib.Core.Path.{ap₂}
use sidle_baselines.Base.{
  ℕ, zero, suc, ◌+◌, ◌-◌, ◌*◌, ◌/◌, ◌%◌, ◌≤◌, ◌<◌, ◌≡◌, true, ◌&&◌, List, [], ◌∷◌, length,
  get_elem?, Option, some, leb, ltb, if◌then◌else◌, refl, ap, ◌∙◌, arith,
}
use sidle_baselines.Tpcc.Store.{uint32_mod}

-- `w_id_start` and `w_id_end` of a worker, which are uint32_t
pub record WarehouseRange : Type 0 where
  pub w_id_start : ℕ
  pub w_id_end : ℕ

-- The loop over the workers, for as many as are left: each takes as many warehouses as it is due, and one
-- more as long as some trail.
unfoldable pub deal : ℕ → ℕ → ℕ → ℕ → List WarehouseRange
deal w_num_per_thread zero prev_end_i trailing_warehouse = []
deal w_num_per_thread (suc left) prev_end_i trailing_warehouse =
    let begin_i = prev_end_i in
    let end_i = begin_i + w_num_per_thread + (if ltb 0 trailing_warehouse then 1 else 0) in
    record { w_id_start = (begin_i + 1) % uint32_mod; w_id_end = (end_i + 1) % uint32_mod }
    ∷ deal w_num_per_thread left end_i (trailing_warehouse - 1)

-- the ranges of the `fg_n` workers
unfoldable pub deal_warehouses : ℕ → ℕ → List WarehouseRange
unfolding deal
deal_warehouses warehouse_num fg_n =
    let w_num_per_thread = warehouse_num / fg_n in
    deal w_num_per_thread fg_n 0 (warehouse_num - w_num_per_thread * fg_n)

-- how many of the workers have the warehouse
abbrev pub owners : ℕ → List WarehouseRange → ℕ
owners w [] = 0
owners w (r ∷ ranges) = owners w ranges + (if leb r.w_id_start w && ltb w r.w_id_end then 1 else 0)

-- Every worker has k warehouses or one more.
abbrev pub AreEven : ℕ → List WarehouseRange → Type 0
AreEven k [] = Unit
AreEven k (r ∷ ranges) =
    ((r.w_id_start + k ≤ r.w_id_end) × (r.w_id_end ≤ r.w_id_start + k + 1)) × AreEven k ranges

deal-owners :
    (k left prev trailing w : ℕ)
    → trailing ≤ left
    → prev + k * left + trailing + 1 < uint32_mod
    → owners w (deal k left prev trailing)
      ≡ (if leb (prev + 1) w && leb w (prev + k * left + trailing) then 1 else 0)
unfolding deal
deal-owners k zero prev trailing w h few = ground (arith, mul-zero k)
deal-owners k (suc left) prev zero w h few =
    let split = mul-suc k left in
    let start : (prev + 1) % uint32_mod ≡ prev + 1 = omega arith in
    let end : (prev + k + 0 + 1) % uint32_mod ≡ prev + k + 0 + 1 = omega arith in
    ground
      (arith, split, start, end, deal-owners k left (prev + k + 0) 0 w (omega arith) (omega arith))
deal-owners k (suc left) prev (suc trailing) w h few =
    let split = mul-suc k left in
    let start : (prev + 1) % uint32_mod ≡ prev + 1 = omega arith in
    let end : (prev + k + 1 + 1) % uint32_mod ≡ prev + k + 1 + 1 = omega arith in
    ground (
      arith,
      split,
      start,
      end,
      deal-owners k left (prev + k + 1) trailing w (omega arith) (omega arith),
    )

deal-AreEven :
    (k left prev trailing : ℕ)
    → trailing ≤ left
    → prev + k * left + trailing + 1 < uint32_mod
    → AreEven k (deal k left prev trailing)
unfolding deal
deal-AreEven k zero prev trailing h few = tt
deal-AreEven k (suc left) prev trailing h few =
    let split = mul-suc k left in
    let more : ℕ = if ltb 0 trailing then 1 else 0 in
    let at_most : more + (trailing - 1) ≤ trailing = ground arith in
    let one : more ≤ 1 = ground arith in
    (
      (omega arith, omega arith),
      deal-AreEven k left (prev + k + more) (trailing - 1) (omega arith) (omega arith),
    )

length-deal : (k left prev trailing : ℕ) → length (deal k left prev trailing) ≡ left
unfolding deal
length-deal k zero prev trailing = refl
length-deal k (suc left) prev trailing =
    ap suc (length-deal k left (prev + k + (if ltb 0 trailing then 1 else 0)) (trailing - 1))

abbrev range : ℕ → ℕ → Option WarehouseRange
range start end = some (record { w_id_start = start; w_id_end = end })

same_range : (a b c d : ℕ) → a ≡ c → b ≡ d → range a b ≡ range c d
same_range a b c d p q = ap₂ range p q

-- Of workers that are due no warehouse, those after the trailing ones get none.
deal-empty :
    (left prev trailing i : ℕ)
    → trailing ≤ i
    → i < left
    → prev + trailing + 1 < uint32_mod
    → get_elem? (deal 0 left prev trailing) i
      ≡ some (record { w_id_start = prev + trailing + 1; w_id_end = prev + trailing + 1 })
unfolding deal
deal-empty zero prev trailing i h lt few = absurd (omega arith)
deal-empty (suc left) prev zero zero h lt few =
    let start : ℕ = (prev + 1) % uint32_mod in
    let end : ℕ = (prev + 0 + 0 + 1) % uint32_mod in
    same_range start end (prev + 0 + 1) (prev + 0 + 1) (omega arith) (omega arith)
deal-empty (suc left) prev (suc trailing) zero h lt few = absurd (omega arith)
deal-empty (suc left) prev zero (suc i) h lt few =
    let at : ℕ = prev + 0 + 0 + 0 + 1 in
    let to : ℕ = prev + 0 + 1 in
    deal-empty left (prev + 0 + 0) zero i (omega arith) (omega arith) (omega arith)
    ∙ same_range at at to to (omega arith) (omega arith)
deal-empty (suc left) prev (suc trailing) (suc i) h lt few =
    let at : ℕ = prev + 0 + 1 + trailing + 1 in
    let to : ℕ = prev + suc trailing + 1 in
    let more : ltb 0 (suc trailing) ≡ true = ground arith in
    let less : suc trailing - 1 ≡ trailing = omega arith in
    rw (more, less)
      (deal-empty left (prev + 0 + 1) trailing i (omega arith) (omega arith) (omega arith))
    ∙ same_range at at to to (omega arith) (omega arith)

-- Fewer than 2^32 - 1 warehouses are dealt out to one worker or more: each worker has a range, their sizes differ
-- by one at most, and each warehouse lies in exactly one of the ranges.
pub deal_warehouses-owners :
    (warehouse_num fg_n : ℕ)
    → 1 ≤ fg_n
    → warehouse_num + 1 < uint32_mod
    → (w : ℕ) → 1 ≤ w
    → w ≤ warehouse_num
    → (length (deal_warehouses warehouse_num fg_n) ≡ fg_n)
      × AreEven (warehouse_num / fg_n) (deal_warehouses warehouse_num fg_n)
      × (owners w (deal_warehouses warehouse_num fg_n) ≡ 1)
unfolding deal_warehouses
deal_warehouses-owners warehouse_num fg_n some_worker few_warehouses w lo hi =
    let k = warehouse_num / fg_n in
    let trailing = warehouse_num - k * fg_n in
    let rest : warehouse_num % fg_n < fg_n = grind arith in
    let few : trailing ≤ fg_n = omega (arith, div-add-mod' warehouse_num fg_n) in
    let all : fg_n * k + trailing ≡ warehouse_num =
      omega (arith, div-add-mod' warehouse_num fg_n, mul_comm fg_n k) in
    let bound : 0 + k * fg_n + trailing + 1 < uint32_mod = omega (arith, all, mul_comm fg_n k) in
    (
      length-deal k fg_n 0 trailing,
      deal-AreEven k fg_n 0 trailing few bound,
      ground (arith, deal-owners k fg_n 0 trailing w few bound, all, mul_comm fg_n k),
    )

-- With fewer warehouses than workers, each worker from the number of the warehouses on gets an empty range.
pub deal_warehouses-empty :
    (warehouse_num fg_n i : ℕ)
    → warehouse_num ≤ i
    → i < fg_n
    → warehouse_num + 1 < uint32_mod
    → get_elem? (deal_warehouses warehouse_num fg_n) i
      ≡ some (record { w_id_start = warehouse_num + 1; w_id_end = warehouse_num + 1 })
unfolding deal_warehouses
deal_warehouses-empty warehouse_num fg_n i h lt few =
    let none_each : warehouse_num / fg_n ≡ 0 = div-eq_of_lt (omega arith) in
    let trailing : warehouse_num - 0 * fg_n ≡ warehouse_num = omega arith in
    rw (none_each, trailing)
      (deal-empty fg_n 0 warehouse_num i h lt (omega arith)
        ∙ same_range (0 + warehouse_num + 1) (0 + warehouse_num + 1) (warehouse_num + 1)
            (warehouse_num + 1) (omega arith) (omega arith))
