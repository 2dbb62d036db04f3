-- ===== src/Examples/Libraries.antt =====
-- Vendored libraries at small instances: a Wormhole that is a function, one that refuses every row, and
-- one that has its rows in a list; a Masstree that has its rows in a list; an ART, a PACTree and a SMART.
use sidle_baselines.Base.{
  ℕ, zero, suc, ◌≡◌, ◌≢◌, refl, Bool, true, false, Option, none, some, List, [], ◌∷◌, ◌==◌, take,
  pos, if◌then◌else◌, arith, ◌<◌,
}
use sidle_baselines.Memory.{Run, done, fault, assert_failed}
use sidle_baselines.Keys.StoredRows.{rows_from}
use sidle_baselines.Masstree.Tree.{MassTree, IsScanned, JsonCell, number, row_cells, inserted}
use sidle_baselines.Wormhole.Library.{WormholeLib, IsMap, IsIterator}
use sidle_baselines.Indexes.Art.{ArtLib, IsKeySet}
use sidle_baselines.Indexes.Pactree.{PactreeLib}
use sidle_baselines.Indexes.Pactree
use sidle_baselines.Indexes.Smart.{SmartLib}
use sidle_baselines.Indexes.Smart
use sidle_baselines.Bytes.Equality.{same_bytes, same_bytes_refl, same_bytes-false}
use sidle_baselines.Examples.Trees.{FunctionTree}

-- no iterators
abbrev pub NoIter : Type 0 → Type 0
NoIter V = Unit

abbrev pub function_wormhole : WormholeLib FunctionTree (Unit {0}) NoIter
function_wormhole = record {
  wormhole_ref = λ t. (some tt, t);
  wormhole_unref = λ r t. t;
  wormhole_get = λ r t s. t s;
  wormhole_put = λ r t s v. (true, λ s'. if same_bytes s s' then some v else t s');
  wormhole_del = λ r t s. (true, λ s'. if same_bytes s s' then none else t s');
  iter_create = λ r t. tt;
  iter_seek = λ it s. tt;
  iter_next = λ it. (none, tt);
}

unfoldable pub function_wormhole-IsMap : IsMap function_wormhole
function_wormhole-IsMap = record {
  find = λ t s. t s;
  get_find = λ r t s. refl;
  put_same = λ r t s v stored. rw (same_bytes_refl s);
  put_other = λ r t s s' v apart. rw (same_bytes-false s s' apart);
  put_refused = λ r t s s' v refused. absurd cc;
  del_same = λ r t s. rw (same_bytes_refl s);
  del_other = λ r t s s' apart. rw (same_bytes-false s s' apart);
}

-- with no memory for another row
abbrev pub full_wormhole : WormholeLib FunctionTree (Unit {0}) NoIter
full_wormhole = record function_wormhole { wormhole_put = λ r t s v. (false, t) }

pub full_wormhole-IsMap : IsMap full_wormhole
full_wormhole-IsMap = record {
  find = λ t s. t s;
  get_find = λ r t s. refl;
  put_same = λ r t s v stored. absurd cc;
  put_other = λ r t s s' v apart. refl;
  put_refused = λ r t s s' v refused. refl;
  del_same = λ r t s. rw (same_bytes_refl s);
  del_other = λ r t s s' apart. rw (same_bytes-false s s' apart);
}

-- rows in ascending order
abbrev pub Rows : Type 0 → Type 0
Rows V = List (List ℕ × V)

abbrev next_row : {V : Type 0} → Rows V → Option (List ℕ × V) × Rows V
next_row [] = (none, [])
next_row (row ∷ rows) = (some row, rows)

abbrev pub row_wormhole : WormholeLib Rows (Unit {0}) Rows
row_wormhole = record {
  wormhole_ref = λ t. (some tt, t);
  wormhole_unref = λ r t. t;
  wormhole_get = λ r t s. none;
  wormhole_put = λ r t s v. (false, t);
  wormhole_del = λ r t s. (false, t);
  iter_create = λ r t. t;
  iter_seek = λ it s. rows_from s it;
  iter_next = λ it. next_row it;
}

unfoldable pub row_wormhole-IsIterator : IsIterator row_wormhole
row_wormhole-IsIterator = record {
  rows = λ t. t;
  remaining = λ it. it;
  seek_rows = λ r t s. refl;
  next_nil = λ it e. rw e refl;
  next_cons = λ it row rest e. rw e (refl, refl);
}

abbrev scan_rows : {V : Type 0} → Rows V → List ℕ → ℕ → Run (List (JsonCell V))
scan_rows t s zero = fault assert_failed
scan_rows t s (suc n) = done (number 0 ∷ number 0 ∷ row_cells (take (suc n) (rows_from s t)))

abbrev pub row_tree : MassTree Rows
row_tree = record {
  run_get1 = λ t s. none;
  run_replace = λ t s v. (inserted, t);
  run_remove = λ t s. t;
  run_scan = λ t s n. scan_rows t s n;
}

unfoldable pub row_tree-IsScanned : IsScanned row_tree
row_tree-IsScanned = record { rows = λ t. t; scan_rows = λ t s n h. some_rows t s n h }
  where
    some_rows :
        {V : Type 0} (t : Rows V) (s : List ℕ) (n : ℕ)
        → 0 < n
        → scan_rows t s n ≡ done (number 0 ∷ number 0 ∷ row_cells (take n (rows_from s t)))
    some_rows t s zero h = absurd (omega arith)
    some_rows t s (suc n) h = refl

abbrev pub Strings : Type 0
Strings = List ℕ → Bool

abbrev pub string_art : ArtLib Strings
string_art = record {
  adaptive_radix_tree_put = λ t s. (pos 0, λ s'. if same_bytes s s' then true else t s');
  adaptive_radix_tree_get = λ t s. if t s then some s else none;
}

pub string_art-IsKeySet : IsKeySet string_art
string_art-IsKeySet = record {
  put_ret = λ t s. (0, refl);
  get_put_same = λ t s. rw (same_bytes_refl s) refl;
  get_put_other = λ t s s' apart. rw (same_bytes-false s s' apart) refl;
}

abbrev pub Numbers : Type 0
Numbers = ℕ → Option ℕ

pub same_number : (k : ℕ) → k == k ≡ true
same_number k = ground arith

pub other_number : (k j : ℕ) → k ≢ j → k == j ≡ false
other_number k j apart = ground arith

-- a lookup that finds nothing returns 99
abbrev pub found_or : Option ℕ → ℕ → ℕ
found_or none u = u
found_or (some v) u = v

abbrev pub is_found : Option ℕ → Bool
is_found none = false
is_found (some v) = true

abbrev pub number_pactree : PactreeLib Numbers
number_pactree = record {
  register_thread = λ t. t;
  unregister_thread = λ t. t;
  insert = λ t k v. (true, λ j. if k == j then some (found_or (t k) v) else t j);
  lookup = λ t k. found_or (t k) 99;
  remove = λ t k j. if k == j then none else t j;
}

unfoldable pub number_pactree-IsMap : Pactree.IsMap number_pactree
number_pactree-IsMap = record {
  find = λ t k. t k;
  lookup_found = λ t k v e. rw e refl;
  insert_new = λ t k v e. rw (same_number k, e) refl;
  insert_old = λ t k v u e. rw (same_number k, e) refl;
  insert_other = λ t k v j apart. rw (other_number k j apart) refl;
  remove_same = λ t k. rw (same_number k) refl;
  remove_other = λ t k j apart. rw (other_number k j apart) refl;
}

abbrev pub number_smart : SmartLib Numbers ℕ ℕ
number_smart = record {
  get_instance = λ machines threads. 0;
  register_thread = λ dsm. suc dsm;
  new_tree = λ dsm k. none;
  int2key = λ k. k;
  search = λ t s u. (is_found (t s), found_or (t s) u);
  insert = λ t s v s'. if s == s' then some v else t s';
}

unfoldable pub number_smart-IsMap : Smart.IsMap number_smart
number_smart-IsMap = record {
  find = λ t s. t s;
  search_found = λ t s u v e. rw e refl;
  search_absent = λ t s u e. rw e refl;
  insert_same = λ t s v. rw (same_number s) refl;
  insert_other = λ t s s' v apart. rw (other_number s s' apart) refl;
}
