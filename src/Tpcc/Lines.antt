-- ===== src/Tpcc/Lines.antt =====
-- benchmark/real_world/tpcc.cpp `txn_new_order`: the loop over the lines of the order.
use Prim.Native.Nat.{Ordering}
use sidle_baselines.Base.{
  ℕ, ◌+◌, ◌≤◌, ◌<◌, ◌^◌, ◌≡◌, ◌≢◌, ◌⊎◌, refl, ◌∙◌, true, false, none, some, List, [], ◌∷◌, ◌++◌,
  length, arith,
}
use sidle_baselines.Memory.{done}
use sidle_baselines.Bytes.{little}
use sidle_baselines.Keys.StrKey.{keycmp}
use sidle_baselines.Keys.Packed.{to_str_key}
use sidle_baselines.Keys.Structs.{i_key, i_struct, s_key, s_struct, OlKey, ol_key, ol_struct}
use sidle_baselines.Keys.StructsOrder.{ol_key-order}
use sidle_baselines.Keys.Apart.{memcmp-apart}
use sidle_baselines.Masstree.{MassTree, IsMap, get}
use sidle_baselines.Masstree.WrapperMap.{insert-get}
use sidle_baselines.Tpcc.Values.{FloatOps, OlVal, IVal}
use sidle_baselines.Tpcc.Store.{Unassigned, or_unassigned}
use sidle_baselines.Tpcc.NewOrderDraws.{Line}
use sidle_baselines.Tpcc.NewOrder.{
  LineTables, new_quantity, new_stock, new_order_line, place_line, place_lines,
}

-- From a stock of 10 to 100 pieces, an order of 1 to 10 leaves 10 to 100: either it is taken from the
-- stock, or from the stock and 91 new ones.
pub new_quantity_bounds :
    (s_quantity ol_quantity : ℕ)
    → 10 ≤ s_quantity
    → s_quantity ≤ 100
    → 1 ≤ ol_quantity
    → ol_quantity ≤ 10
    → (10 ≤ new_quantity s_quantity ol_quantity)
      × (new_quantity s_quantity ol_quantity ≤ 100)
      × ((new_quantity s_quantity ol_quantity + ol_quantity ≡ s_quantity)
          ⊎ (new_quantity s_quantity ol_quantity + ol_quantity ≡ s_quantity + 91))
unfolding new_quantity
new_quantity_bounds s q lo hi pos le = (ground arith, ground arith, ground arith)

module _ {Tree : Type 0 → Type 0} {F : Type 0} (m : MassTree Tree) (items : Tree (IVal F)) where
  -- Every line's item has a row.
  abbrev pub HasItems : List Line → Type 0
  HasItems [] = Unit
  HasItems (line ∷ lines) =
      ((v : IVal F) × (get m little items (i_key line.item_id) ≡ some v)) × HasItems lines

  -- Every line, numbered from n on, has its row, with its item's price in it.
  abbrev pub HasOrderLines :
      FloatOps F → Unassigned F → ℕ → ℕ → ℕ → ℕ → List Line → Tree (OlVal F) → Type 0
  HasOrderLines float blank w d o n [] table = Unit
  HasOrderLines float blank w d o n (line ∷ lines) table =
      ((v_i : IVal F) × (get m little items (i_key line.item_id) ≡ some v_i)
        × (get m little table (ol_key w d o n) ≡ some (new_order_line m float blank v_i line)))
      × HasOrderLines float blank w d o (n + 1) lines table

module _ (w d o : ℕ) (small_w : w < 2 ^ 16) (small_d : d < 2 ^ 8) (small_o : o < 2 ^ 32) where
  -- The lines of one order have keys of different bytes.
  pub ol_key_apart :
      (a b : ℕ)
      → a < 2 ^ 8
      → b < 2 ^ 8
      → a ≢ b
      → to_str_key little (ol_key w d o a) ≢ to_str_key little (ol_key w d o b)
  unfolding keycmp
  ol_key_apart a b ha hb apart =
      let order =
        (ol_key-order w d o a w d o b small_w small_d small_o ha small_w small_d small_o hb).1 in
      let differ : keycmp (w ∷ d ∷ o ∷ a ∷ []) (w ∷ d ∷ o ∷ b ∷ []) ≢ Ordering.eq =
        λ e. ground (arith, e) in
      memcmp-apart (to_str_key little (ol_key w d o a)) (to_str_key little (ol_key w d o b))
        (rw order differ)

  module _ {Tree : Type 0 → Type 0} {F : Type 0} (m : MassTree Tree) (map : IsMap m)
      (float : FloatOps F) (blank : Unassigned F) (items : Tree (IVal F)) where
    -- A round of the loop returns. The stock of the line's item at its supplier and the order line have
    -- their new rows, and every order line of other bytes keeps its own.
    pub place_line_lem :
        (n : ℕ) (line : Line) (v_i : IVal F) (t : LineTables Tree F)
        → (t' : LineTables Tree F) × (place_line m float blank items w d o n line v_i t ≡ done t')
          × (get m little t'.table_stock (s_key line.supplier_warehouse_id line.item_id)
              ≡ some (
                  new_stock m float blank
                    (or_unassigned
                      (get m little t.table_stock (s_key line.supplier_warehouse_id line.item_id))
                      blank.v_s)
                    w
                    line))
          × (get m little t'.table_order_line (ol_key w d o n)
              ≡ some (new_order_line m float blank v_i line))
          × ((j : OlKey)
              → to_str_key little (ol_key w d o n) ≢ to_str_key little j
              → get m little t'.table_order_line j ≡ get m little t.table_order_line j)
    unfolding place_line
    place_line_lem n line v_i t =
        let k_s = s_key line.supplier_warehouse_id line.item_id in
        let (stock, e, at, _) = insert-get m map little t.table_stock k_s (
          new_stock m float blank (or_unassigned (get m little t.table_stock k_s) blank.v_s) w
            line) in
        let (rows, e', at', apart) =
          insert-get m map little t.table_order_line (ol_key w d o n)
            (new_order_line m float blank v_i line) in
        (
          record {
            table_stock = stock;
            table_order_line = rows;
            all_amount = float.add t.all_amount ((new_order_line m float blank v_i line).ol_amount);
          },
          rw (e, e'),
          at,
          at',
          apart,
        )

    pub place_lines-found :
        (n : ℕ) (line : Line) (lines : List Line) (v_i : IVal F) (t u : LineTables Tree F)
        → get m little items (i_key line.item_id) ≡ some v_i
        → place_line m float blank items w d o n line v_i t ≡ done u
        → place_lines m float blank items w d o n (line ∷ lines) t
          ≡ place_lines m float blank items w d o (n + 1) lines u
    unfolding place_lines
    place_lines-found n line lines v_i t u there e = ground (arith, there, e)

    -- On tables that are maps, where every item of the lines has a row, the numbers of the lines fit
    -- a byte, and warehouse, district and order id fit the key of a line: the loop runs to its end.
    -- Each line then has its row, with its item's price in it, and every order line of other bytes
    -- keeps its own.
    pub place_lines-order_lines :
        (n : ℕ) (lines : List Line) (t : LineTables Tree F)
        → HasItems m items lines
        → n + length lines ≤ 2 ^ 8
        → (t' : LineTables Tree F) × (place_lines m float blank items w d o n lines t
            ≡ done (true, t'))
          × HasOrderLines m items float blank w d o n lines t'.table_order_line
          × ((j : OlKey)
              → ((a : ℕ)
                  → n ≤ a
                  → a < n + length lines
                  → to_str_key little (ol_key w d o a) ≢ to_str_key little j)
              → get m little t'.table_order_line j ≡ get m little t.table_order_line j)
    unfolding place_lines
    place_lines-order_lines n [] t has fits = (t, refl, tt, λ j apart. refl)
    place_lines-order_lines n (first ∷ lines) t ((v, there), has) fits =
        let (u, e, _, at, apart) = place_line_lem n first v t in
        let (t', e', rows, others) = place_lines-order_lines (n + 1) lines u has (omega arith) in
        let kept =
          others (ol_key w d o n)
            (λ a h q. ol_key_apart a n (omega arith) (omega arith) (omega arith)) in
        (
          t',
          place_lines-found n first lines v t u there e ∙ e',
          ((v, there, kept ∙ at), rows),
          λ j far.
              others j (λ a h q. far a (omega arith) (omega arith))
              ∙ apart j (far n (omega arith) (omega arith)),
        )

    -- On tables that are maps: where the item of a line has no row, and those of the lines before it
    -- do, the loop stops there.
    pub place_lines-missing :
        (n : ℕ) (before : List Line) (line : Line) (after : List Line) (t : LineTables Tree F)
        → HasItems m items before
        → get m little items (i_key line.item_id) ≡ none
        → (t' : LineTables Tree F) × (place_lines m float blank items w d o n
              (before ++ line ∷ after)
              t
            ≡ done (false, t'))
    unfolding place_lines
    place_lines-missing n [] line after t has gone = (t, ground (arith, gone))
    place_lines-missing n (first ∷ before) line after t ((v, there), has) gone =
        let (u, e, _, _, _) = place_line_lem n first v t in
        let (t', e') = place_lines-missing (n + 1) before line after u has gone in
        (t', place_lines-found n first (before ++ line ∷ after) v t u there e ∙ e')
