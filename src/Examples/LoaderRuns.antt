-- ===== src/Examples/LoaderRuns.antt =====
-- benchmark/real_world/tpcc_loader.h at small inputs.
use sidle_baselines.Base.{ℕ, ◌≤◌, ◌≡◌, refl, true, some, none, List, [], ◌∷◌, arith}
use sidle_baselines.Memory.{done, Array}
use sidle_baselines.Bytes.{little, load}
use sidle_baselines.Random.Draws.{num_customer_per_district}
use sidle_baselines.Keys.Packed.{KeyStruct, less, as_uint64, image}
use sidle_baselines.Keys.PackedOrder.{Fits}
use sidle_baselines.Keys.Structs.{DKey, d_key, d_struct, o_key, o_struct}
use sidle_baselines.Keys.PackedOrder.{less-compare_fields}
use sidle_baselines.Masstree.{get}
use sidle_baselines.Tpcc.Values.{OVal}
use sidle_baselines.Tpcc.Sound.{IsSound}
use sidle_baselines.Tpcc.HackInfo.{create_hack_info}
use sidle_baselines.Tpcc.LoadOrders.{emplace}
use sidle_baselines.Tpcc.Loader.{load_masstree_kv_data}
use sidle_baselines.Tpcc.Loaded.{IsRow, IsAbsent, load_masstree_kv_data-get}
use sidle_baselines.Tpcc.Prepare.{load_table_order, load_table_order-get, prepared-IsSound}
use sidle_baselines.Examples.TpccRuns.{floats}
use sidle_baselines.Examples.SortedTree.{SortedTree, sorted_tree, sorted_tree-IsMap}
use sidle_baselines.Examples.DeliveryRuns.{one_district, pending_store}

abbrev two_districts : List (DKey × ℕ)
two_districts = (d_key 1 1, 5) ∷ (d_key 1 2, 7) ∷ []

-- a key that is there keeps its value
emplace_again : emplace (d_key 1 2) 8 two_districts ≡ two_districts
unfolding emplace less as_uint64 image load
emplace_again = refl

module _ {K V : Type 0} ⦃s : KeyStruct K⦄ where
  empty : (k : K) → get sorted_tree little {V = V} [] k ≡ none
  unfolding get
  empty k = refl

-- no shuffle at all
abbrev unshuffled : Array ℕ → Array ℕ
unshuffled ids = ids

load_table_order-get_example :
    (table : SortedTree OVal) × (load_table_order sorted_tree floats unshuffled one_district []
      ≡ done table)
    × ((w d o : ℕ)
        → 1 ≤ w
        → w ≤ 1
        → 1 ≤ d
        → d ≤ 1
        → 1 ≤ o
        → o ≤ num_customer_per_district
        → (v_o : OVal) × (get sorted_tree little table (o_key w d o) ≡ some v_o))
load_table_order-get_example =
    load_table_order-get sorted_tree floats unshuffled one_district sorted_tree-IsMap (λ ids. refl)
      (omega arith) (omega arith) [] empty

prepared-IsSound_example :
    (pending : Array (Array ℕ)) × (latest : Array (Array (Array ℕ))) × (table : SortedTree OVal)
    × (create_hack_info one_district ≡ done (pending, latest))
    × (load_table_order sorted_tree floats unshuffled one_district [] ≡ done table)
    × IsSound sorted_tree 1 1 (record pending_store {
      pending_new_order_per_dis = pending;
      latest_order_id_per_customer = latest;
      table_order = table;
    })
prepared-IsSound_example =
    prepared-IsSound sorted_tree floats unshuffled one_district sorted_tree-IsMap (λ ids. refl)
      (omega arith) (omega arith) [] empty (omega arith) (omega arith) pending_store

district_order : less little (d_key 1 1) (d_key 1 2) ≡ true
district_order =
    less-compare_fields (d_key 1 1) (d_key 1 2) (omega arith) (omega arith) (omega arith)

load_masstree_kv_data-get_example :
    (table : SortedTree ℕ) × (load_masstree_kv_data sorted_tree little []
        (λ seed. done two_districts)
        129856349
      ≡ done table)
    × ((k : DKey) (v : ℕ) → IsRow k v two_districts → get sorted_tree little table k ≡ some v)
    × ((k : DKey)
        → Fits (d_struct.layout k)
        → IsAbsent k two_districts
        → get sorted_tree little table k ≡ none)
load_masstree_kv_data-get_example =
    load_masstree_kv_data-get sorted_tree sorted_tree-IsMap (λ a b. omega arith) []
      (λ seed. done two_districts) 129856349 two_districts empty refl (omega arith)
      ((district_order, tt), (tt, tt))
