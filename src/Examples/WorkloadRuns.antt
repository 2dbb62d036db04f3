-- ===== src/Examples/WorkloadRuns.antt =====
-- A small workload on both wrappers.
use sidle_baselines.Base.{ℕ, ◌≡◌, refl, none, some, List, [], ◌∷◌, arith}
use sidle_baselines.Memory.{done, fresh}
use sidle_baselines.Bytes.{little}
use sidle_baselines.Keys.IntKey.{Key}
use sidle_baselines.Keys.Stored.{int_key}
use sidle_baselines.Keys.Packed.{to_str_key}
use sidle_baselines.Wormhole.Wrapper.{WormholeKv}
use sidle_baselines.Workload.Index.{Op, get_op, insert_op, remove_op, Reply, run, replies}
use sidle_baselines.Workload.MasstreeIndex.{masstree_index}
use sidle_baselines.Workload.WormholeIndex.{wormhole_index, AllEntered}
use sidle_baselines.Workload.Agreement.{int_struct, masstree-wormhole}
use sidle_baselines.Examples.Trees.{FunctionTree, function_tree, function_tree-IsMap}
use sidle_baselines.Examples.Libraries.{function_wormhole, function_wormhole-IsMap}

abbrev empty_map : FunctionTree ℕ
empty_map s = none

-- two workers, who have both entered
abbrev entered : WormholeKv FunctionTree (Unit {0}) ℕ
entered = record {
  wh_ptr = empty_map;
  worker_info = fresh (some tt) 2;
  held = record { refs = 2; iters = 0; kvs = 0 };
}

entered-AllEntered : AllEntered function_wormhole (int_key little) 2 entered
entered-AllEntered w known = (tt, record { inside = known; here = refl })

abbrev seven : Key
seven = record { key = 7 }

abbrev calls : List (ℕ × Op Key ℕ)
calls = (0, insert_op seven 5) ∷ (1, get_op seven) ∷ (1, remove_op seven) ∷ (0, get_op seven) ∷ []

masstree-wormhole_example :
    (rs : List (Reply ℕ)) × (t' : FunctionTree ℕ) × (kv' : WormholeKv FunctionTree (Unit {0}) ℕ)
    × (run (masstree_index function_tree little) calls empty_map ≡ done (rs, t'))
    × (run (wormhole_index function_wormhole (int_key little)) calls entered ≡ done (rs, kv'))
    × (rs ≡ replies (λ k. to_str_key little k) calls empty_map)
    × ((b : List ℕ) → t' b ≡ kv'.wh_ptr b)
unfolding function_wormhole-IsMap
masstree-wormhole_example =
    masstree-wormhole function_tree function_tree-IsMap function_wormhole function_wormhole-IsMap
      (λ r t s v. refl) little 2 calls empty_map entered (λ b. refl) entered-AllEntered
      (omega arith, (omega arith, (omega arith, (omega arith, tt))))
