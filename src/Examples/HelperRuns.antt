-- ===== src/Examples/HelperRuns.antt =====
-- The helpers at small inputs.
use sidle_baselines.Base.{ℕ, ◌≡◌, ◌*◌, refl, List, [], ◌∷◌, ltb, arith}
use sidle_baselines.Memory.{done, Array}
use sidle_baselines.Bytes.{little, memcmp}
use sidle_baselines.Keys.IntKey.{Key}
use sidle_baselines.Keys.Stored.{StoredKey, int_key}
use sidle_baselines.Helper.Extremes.{Comparable, IsOrder}
use sidle_baselines.Helper.Callback.{RowLib, make_callback, is_single, feed}
use sidle_baselines.Helper.CallbackRows.{rows_below, taken_rows, feed-rows_below}

abbrev numbers : Comparable ℕ
numbers = record { less = λ a b. ltb a b; greater = λ a b. ltb b a }

numbers-IsOrder : IsOrder numbers
numbers-IsOrder = record {
  converse = λ a b. refl;
  irreflexive = λ a. ground arith;
  asymmetric = λ a b h. ground (arith, h);
  bounded = λ a b d h k. ground (arith, h, k);
}

abbrev squares : Array ℕ
squares = record { size = 6; cell = λ i. i * i }

-- a clock that goes on by three at each reading
abbrev clock : ℕ → ℕ
clock i = 3 * i

-- rows of one column each, which are their value
abbrev one_column : RowLib ℕ ℕ
one_column = record { snapshot = λ row f. row; ncol = λ row. 1; col = λ row c. row }

abbrev key : StoredKey Key
key = int_key little

abbrev key_rows : List (List ℕ × ℕ)
key_rows = ((1 ∷ 1 ∷ []), 10) ∷ ((1 ∷ 5 ∷ []), 20) ∷ ((2 ∷ 0 ∷ []), 30) ∷ []

feed-rows_below_example :
    feed one_column key [] (make_callback (record { key = 0 }) (1 ∷ 5 ∷ []) []) key_rows
    ≡ done (record {
      begin = record { key = 0 };
      end = 1 ∷ 5 ∷ [];
      result = taken_rows one_column key [] (rows_below (1 ∷ 5 ∷ []) key_rows);
    })
unfolding memcmp is_single
feed-rows_below_example =
    feed-rows_below one_column key [] (record { key = 0 }) (1 ∷ 5 ∷ []) [] key_rows
      (refl, refl, (refl, refl, (refl, tt, tt))) (λ row. refl)
