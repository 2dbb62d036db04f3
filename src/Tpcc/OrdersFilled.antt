-- ===== src/Tpcc/OrdersFilled.antt =====
-- benchmark/real_world/tpcc_loader.h `load_order`: the map of the orders while it is filled.
use sidle_baselines.Base.{
  ℕ, suc, ◌+◌, ◌*◌, ◌^◌, ◌≤◌, ◌<◌, ◌≡◌, sym, ◌∙◌, true, List, [], ◌∷◌, ◌++◌, arith,
}
use std.Path.{subst}
use native.Mathlib.Decide.{dec_lt}
use sidle_baselines.Bytes.{little}
use sidle_baselines.Random.Draws.{num_customer_per_district}
use sidle_baselines.Keys.Packed.{less, smaller}
use sidle_baselines.Keys.Structs.{OKey, o_key, o_struct}
use sidle_baselines.Keys.StructsOrder.{o_key-order}
use sidle_baselines.Tpcc.Values.{OVal}
use sidle_baselines.Tpcc.LoadOrders.{emplace}
use sidle_baselines.Tpcc.Loaded.{RowsFit, IsAscending, IsRow}
use sidle_baselines.Tpcc.Emplace.{
  IsAbove, emplace_last, last-IsRow, IsRow-last, RowsFit-last, IsAbove-last, IsAscending-last,
}

-- the place of an order in the sequence of all
abbrev pub place : ℕ → ℕ → ℕ → ℕ
place w d o = w * 1048576 + d * 4096 + o

less-place :
    (w d o w' d' o' : ℕ)
    → w < 2 ^ 16
    → d < 2 ^ 8
    → o < 4096
    → w' < 2 ^ 16
    → d' < 2 ^ 8
    → o' < 4096
    → place w d o < place w' d' o'
    → less little (o_key w d o) (o_key w' d' o') ≡ true
unfolding smaller
less-place w d o w' d' o' hw hd ho hw' hd' ho' before =
    let lem = (o_key-order w d o w' d' o' hw hd (omega arith) hw' hd' (omega arith)).0 in
    lem ∙ ground arith

module _ (districts : ℕ) where
  -- The rows are those of the orders whose place is below `next`.
  pub record IsFilled (next : ℕ) (rows : List (OKey × OVal)) : Type 0 where
    pub fit : RowsFit rows
    pub up : IsAscending rows
    pub above :
        (w d o : ℕ)
        → w < 2 ^ 16
        → d < 2 ^ 8
        → o ≤ num_customer_per_district
        → next ≤ place w d o
        → IsAbove rows (o_key w d o)
    pub there :
        (w d o : ℕ)
        → 1 ≤ w
        → w < 2 ^ 16
        → 1 ≤ d
        → d ≤ districts
        → 1 ≤ o
        → o ≤ num_customer_per_district
        → place w d o < next
        → (v_o : OVal) × IsRow (o_key w d o) v_o rows

  module _ (few_districts : districts < 2 ^ 8) where
    pub IsFilled-emplace :
        (w d o : ℕ) (v_o : OVal) (rows : List (OKey × OVal))
        → w < 2 ^ 16
        → d ≤ districts
        → o ≤ num_customer_per_district
        → IsFilled (place w d o) rows
        → IsFilled (place w d (suc o)) (emplace (o_key w d o) v_o rows)
    IsFilled-emplace w d o v_o rows hw hd ho filled =
        let k : OKey = o_key w d o in
        let over = filled.above w d o hw (omega arith) ho (omega arith) in
        subst (IsFilled (place w d (suc o))) (sym (emplace_last k v_o rows over)) (record {
          fit = RowsFit-last k v_o rows filled.fit (omega arith);
          up = IsAscending-last k v_o rows filled.up over;
          above = λ w' d' o' hw' hd' ho' later.
              IsAbove-last k v_o rows (o_key w' d' o')
                (filled.above w' d' o' hw' hd' ho' (omega arith))
                (less-place w d o w' d' o' hw (omega arith) (omega arith) hw' hd' (omega arith)
                  (omega arith));
          there = λ w' d' o' w_lo w_hi d_lo d_hi o_lo o_hi earlier.
              elim (dec_lt (place w' d' o') (place w d o)) [
                | yes before ↦
                    let (x, row) = filled.there w' d' o' w_lo w_hi d_lo d_hi o_lo o_hi before in
                    (x, IsRow-last k v_o rows (o_key w' d' o') x row)
                | no not_before ↦
                    let same_w : w ≡ w' = omega arith in
                    let same_d : d ≡ d' = omega arith in
                    let same_o : o ≡ o' = omega arith in
                    let same : k ≡ o_key w' d' o' = λ i. o_key (same_w i) (same_d i) (same_o i) in
                    (
                      v_o,
                      subst (λ j. IsRow j v_o (rows ++ (k, v_o) ∷ [])) same (last-IsRow k v_o rows),
                    )
              ];
        })

    -- past the last order of a district comes the first of the next
    pub IsFilled-next_district :
        (w d : ℕ) (rows : List (OKey × OVal))
        → d ≤ districts
        → IsFilled (place w d (suc num_customer_per_district)) rows
        → IsFilled (place w (suc d) 1) rows
    IsFilled-next_district w d rows hd filled = record {
      fit = filled.fit;
      up = filled.up;
      above = λ w' d' o' hw' hd' ho' later. filled.above w' d' o' hw' hd' ho' (omega arith);
      there = λ w' d' o' w_lo w_hi d_lo d_hi o_lo o_hi earlier.
          filled.there w' d' o' w_lo w_hi d_lo d_hi o_lo o_hi (omega arith);
    }

    pub IsFilled-next_warehouse :
        (w : ℕ) (rows : List (OKey × OVal))
        → IsFilled (place w (suc districts) 1) rows
        → IsFilled (place (suc w) 1 1) rows
    IsFilled-next_warehouse w rows filled = record {
      fit = filled.fit;
      up = filled.up;
      above = λ w' d' o' hw' hd' ho' later. filled.above w' d' o' hw' hd' ho' (omega arith);
      there = λ w' d' o' w_lo w_hi d_lo d_hi o_lo o_hi earlier.
          filled.there w' d' o' w_lo w_hi d_lo d_hi o_lo o_hi (omega arith);
    }

    pub no_rows-IsFilled : IsFilled (place 1 1 1) []
    no_rows-IsFilled = record {
      fit = tt;
      up = tt;
      above = λ w d o hw hd ho later. tt;
      there = λ w d o w_lo w_hi d_lo d_hi o_lo o_hi earlier. absurd (omega arith);
    }
