-- ===== src/Examples/WormholeRuns.antt =====
-- The Wormhole wrapper at small instances of the library, and its scan beside that of Masstree.
use sidle_baselines.Base.{
  ℕ, ◌≡◌, ◌≢◌, ◌≤◌, ◌<◌, refl, true, none, some, List, [], ◌∷◌, length, take, arith,
}
use sidle_baselines.Memory.{done, fresh, read, write, written}
use sidle_baselines.Bytes.{little}
use sidle_baselines.Keys.IntKey.{Key}
use sidle_baselines.Keys.Stored.{StoredKey, int_key}
use sidle_baselines.Keys.StoredRows.{rows_from, restored_rows}
use sidle_baselines.Wormhole.Wrapper.{
  WormholeKv, create, ref_of, worker_enter, destroy, get, insert, remove, scan,
}
use sidle_baselines.Wormhole.WrapperMap.{HasEntered, view, insert-view, remove-view}
use sidle_baselines.Wormhole.Scan.{scan-take}
use sidle_baselines.Wormhole.Protocol.{Reach, here, next, enters, IsBalanced}
use sidle_baselines.Wormhole.Workers.{Reach-IsBalanced, Reach-leaves}
use sidle_baselines.Wormhole.Destroy.{Reach-destroy}
use sidle_baselines.Masstree.Scan.{scan-wormhole}
use sidle_baselines.Masstree.Wrapper
use sidle_baselines.Examples.Trees.{FunctionTree}
use sidle_baselines.Examples.Libraries.{
  function_wormhole, function_wormhole-IsMap, Rows, row_wormhole, row_wormhole-IsIterator, row_tree,
  row_tree-IsScanned,
}

abbrev key : StoredKey Key
key = int_key little

abbrev seven : Key
seven = record { key = 7 }

-- an empty map, and two workers
abbrev empty_map : FunctionTree ℕ
empty_map s = none

abbrev created : WormholeKv FunctionTree (Unit {0}) ℕ
created = create function_wormhole empty_map 2

abbrev inside : WormholeKv FunctionTree (Unit {0}) ℕ
inside = record {
  wh_ptr = empty_map;
  worker_info = written (fresh none 2) 1 (some tt);
  held = record { refs = 1; iters = 0; kvs = 0 };
}

inside_run : Reach function_wormhole key created inside
unfolding worker_enter ref_of read write
inside_run = next here (enters 1 refl)

inside-HasEntered : HasEntered inside 1 tt
inside-HasEntered = record { inside = omega arith; here = refl }

insert-view_example :
    (kv' : WormholeKv FunctionTree (Unit {0}) ℕ) × (insert function_wormhole key inside seven 5 1
      ≡ done (true, kv'))
    × ((j : ℕ) (q : Unit {0})
        → HasEntered inside j q
        → get function_wormhole key kv' seven j ≡ done (some 5, kv'))
    × ((i : Key) (j : ℕ) (q : Unit {0})
        → key.stored seven ≢ key.stored i
        → HasEntered inside j q
        → get function_wormhole key kv' i j
          ≡ done (view function_wormhole function_wormhole-IsMap key inside i, kv'))
    × (kv'.worker_info ≡ inside.worker_info)
    × (kv'.held ≡ inside.held)
insert-view_example =
    insert-view function_wormhole function_wormhole-IsMap key inside seven 5 1 tt inside-HasEntered
      refl

remove-view_example :
    (kv' : WormholeKv FunctionTree (Unit {0}) ℕ) × (remove function_wormhole key inside seven 1
      ≡ done (true, kv'))
    × ((j : ℕ) (q : Unit {0})
        → HasEntered inside j q
        → get function_wormhole key kv' seven j ≡ done (none, kv'))
    × ((i : Key) (j : ℕ) (q : Unit {0})
        → key.stored seven ≢ key.stored i
        → HasEntered inside j q
        → get function_wormhole key kv' i j
          ≡ done (view function_wormhole function_wormhole-IsMap key inside i, kv'))
    × (kv'.worker_info ≡ inside.worker_info)
    × (kv'.held ≡ inside.held)
remove-view_example =
    remove-view function_wormhole function_wormhole-IsMap key inside seven 1 tt inside-HasEntered

Reach-IsBalanced_example : IsBalanced inside
Reach-IsBalanced_example = Reach-IsBalanced function_wormhole key empty_map 2 inside inside_run

Reach-leaves_example :
    (kv' : WormholeKv FunctionTree (Unit {0}) ℕ) × Reach function_wormhole key inside kv'
    × ((w : ℕ) → w < kv'.worker_info.size → kv'.worker_info.cell w ≡ none)
    × (kv'.held.refs ≡ 0)
Reach-leaves_example = Reach-leaves function_wormhole key empty_map 2 inside inside_run

Reach-destroy_example :
    destroy function_wormhole inside ≡ done (record { refs = 0; iters = 0; kvs = 0 })
Reach-destroy_example = Reach-destroy function_wormhole key empty_map 2 inside inside_run

-- rows under the bytes of two keys
abbrev two_rows : Rows ℕ
two_rows = (key.stored (record { key = 3 }), 30) ∷ (key.stored (record { key = 8 }), 80) ∷ []

abbrev row_kv : WormholeKv Rows (Unit {0}) ℕ
row_kv = record {
  wh_ptr = two_rows;
  worker_info = written (fresh none 2) 1 (some tt);
  held = record { refs = 1; iters = 0; kvs = 0 };
}

row_kv-HasEntered : HasEntered row_kv 1 tt
row_kv-HasEntered = record { inside = omega arith; here = refl }

scan-take_example :
    let rows = restored_rows key (take 5 (rows_from (key.stored seven) two_rows)) in
    (scan row_wormhole key row_kv seven 5 1 ≡ done (length rows, rows, row_kv)) × (length rows ≤ 5)
unfolding row_wormhole-IsIterator
scan-take_example =
    scan-take row_wormhole row_wormhole-IsIterator key row_kv seven 5 1 tt row_kv-HasEntered

scan-wormhole_example :
    (count : ℕ) × (rows : List (Key × ℕ)) × (Wrapper.scan key row_tree two_rows seven 5 []
      ≡ done (count, rows))
    × (scan row_wormhole key row_kv seven 5 1 ≡ done (count, rows, row_kv))
unfolding row_tree-IsScanned row_wormhole-IsIterator
scan-wormhole_example =
    scan-wormhole key row_tree row_tree-IsScanned row_wormhole row_wormhole-IsIterator row_kv 1 tt
      two_rows seven 5 row_kv-HasEntered refl (omega arith)
