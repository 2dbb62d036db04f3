-- ===== src/Tpcc/OrderStatusLines.antt =====
-- benchmark/real_world/tpcc.cpp `txn_order_status`: whose lines the transaction reads.
use Prim.Native.Nat.{Ordering}
use sidle_baselines.Base.{
  ℕ, zero, suc, ◌-◌, ◌^◌, ◌<◌, ◌≡◌, refl, ap, ◌∙◌, List, [], ◌∷◌, ◌++◌, length, take, arith,
}
use sidle_baselines.Memory.{done}
use sidle_baselines.Bytes.{little, memcmp}
use sidle_baselines.Keys.Packed.{to_str_key}
use sidle_baselines.Keys.StrKey.{keycmp}
use sidle_baselines.Keys.Structs.{OlKey, ol_key, ol_struct}
use sidle_baselines.Keys.StructsOrder.{ol_key-order}
use sidle_baselines.Keys.OrderLine.{ol_stored_key}
use sidle_baselines.Keys.StoredRows.{stored_rows, AllFit}
use sidle_baselines.Masstree.{MassTree, IsScanned}
use sidle_baselines.Tpcc.Values.{OlVal}
use sidle_baselines.Tpcc.Store.{Store}
use sidle_baselines.Tpcc.NewOrderEffect.{HasPlaces}
use sidle_baselines.Tpcc.LineRows.{lines_from}
use sidle_baselines.Tpcc.OrderStatus.{run_order_status, latest_order, run_order_status-lines_from}

module _ {V : Type 0} where
  -- the lines of an order, numbered from l on
  abbrev pub order_lines : ℕ → ℕ → ℕ → ℕ → List V → List (OlKey × V)
  order_lines w d o l [] = []
  order_lines w d o l (v ∷ vs) = (ol_key w d o l, v) ∷ order_lines w d o (suc l) vs

  -- the keys of the lines are below s in the order of the bytes
  abbrev pub AreBelow : List ℕ → List (OlKey × V) → Type 0
  AreBelow s [] = Unit
  AreBelow s ((k, v) ∷ kvs) = (memcmp (to_str_key little k) s ≡ Ordering.lt) × AreBelow s kvs

  lines_from-below :
      (s : List ℕ) (before rest : List (OlKey × V))
      → AreBelow s before
      → lines_from s (before ++ rest) ≡ lines_from s rest
  lines_from-below s [] rest below = refl
  lines_from-below s ((k, v) ∷ before) rest below =
      ground (arith, below.0, lines_from-below s before rest below.1)

  -- the lines of an order start behind its line 0
  lines_from-order_lines :
      (w d o : ℕ) (v : V) (vs : List V) (rest : List (OlKey × V))
      → w < 2 ^ 16
      → d < 2 ^ 8
      → o < 2 ^ 32
      → lines_from (to_str_key little (ol_key w d o 0)) (order_lines w d o 1 (v ∷ vs) ++ rest)
        ≡ order_lines w d o 1 (v ∷ vs) ++ rest
  unfolding keycmp
  lines_from-order_lines w d o v vs rest w_fits d_fits o_fits =
      let above : memcmp (to_str_key little (ol_key w d o 1)) (to_str_key little (ol_key w d o 0))
          ≡ Ordering.gt =
        (ol_key-order w d o 1 w d o 0 w_fits d_fits o_fits (omega arith) w_fits d_fits o_fits
          (omega arith)).1
        ∙ ground arith in
      ground (arith, above)

  length-order_lines : (w d o l : ℕ) (vs : List V) → length (order_lines w d o l vs) ≡ length vs
  length-order_lines w d o l [] = refl
  length-order_lines w d o l (v ∷ vs) = ap suc (length-order_lines w d o (suc l) vs)

take-parts :
    {A : Type 0} (n : ℕ) (xs ys : List A) → take n (xs ++ ys) ≡ take n xs ++ take (n - length xs) ys
take-parts zero xs ys =
    let none_left : 0 ≡ 0 - length xs = omega arith in ap (λ k. take k ys) none_left
take-parts (suc n) [] ys =
    let all_left : suc n ≡ suc n - 0 = omega arith in ap (λ k. take k ys) all_left
take-parts (suc n) (x ∷ xs) ys =
    let left : n - length xs ≡ suc n - suc (length xs) = omega arith in
    ap (λ zs. x ∷ zs) (take-parts n xs ys ∙ ap (λ k. take n xs ++ take k ys) left)

module _ {Tree : Type 0 → Type 0} {F : Type 0} (m : MassTree Tree) (scanned : IsScanned m)
    (store : Store Tree F) (w d c : ℕ) (places : HasPlaces store w d c) where
  -- Let warehouse, district and customer have their places in the vector, and let the order lines be, in
  -- ascending order and with keys that fit, those below the customer's latest order, one or more of that
  -- order, numbered from 1 on, and later ones. Then the status reads the first ten lines of the order, and for
  -- each that the order has fewer than ten, one of the later lines, as long as there are any.
  pub run_order_status-order_lines :
      (before later : List (OlKey × OlVal F)) (v : OlVal F) (vs : List (OlVal F))
      → scanned.rows store.table_order_line
        ≡ stored_rows (ol_stored_key little) (
            before
            ++ (order_lines w d (latest_order m scanned store w d c places) 1 (v ∷ vs) ++ later))
      → AllFit (ol_stored_key little) (
          before
          ++ (order_lines w d (latest_order m scanned store w d c places) 1 (v ∷ vs) ++ later))
      → AreBelow
          (to_str_key little (ol_key w d (latest_order m scanned store w d c places) 0))
          before
      → run_order_status m w d c store
        ≡ done (
            take 10 (order_lines w d (latest_order m scanned store w d c places) 1 (v ∷ vs))
            ++ take (10 - length (v ∷ vs)) later)
  run_order_status-order_lines before later v vs are fit below =
      let o = latest_order m scanned store w d c places in
      let own = order_lines w d o 1 (v ∷ vs) in
      let s = to_str_key little (ol_key w d o 0) in
      run_order_status-lines_from m scanned store w d c places (before ++ (own ++ later)) are fit
      ∙ ap (λ kvs. done (take 10 kvs))
          (lines_from-below s before (own ++ later) below
            ∙ lines_from-order_lines w d o v vs later places.w_fits places.d_fits (omega arith))
      ∙ ap done (
          take-parts 10 own later
          ∙ ap (λ n. take 10 own ++ take (10 - n) later) (length-order_lines w d o 1 (v ∷ vs)))
