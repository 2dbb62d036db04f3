-- ===== src/Examples/Trees.antt =====
-- A tree that is a map: the function from byte strings to values, which cannot be scanned.
use sidle_baselines.Base.{ℕ, Option, none, some, List, if◌then◌else◌}
use sidle_baselines.Bytes.Equality.{same_bytes, same_bytes_refl, same_bytes-false}
use sidle_baselines.Memory.{fault, assert_failed}
use sidle_baselines.Masstree.{MassTree, IsMap, inserted}

abbrev pub FunctionTree : Type 0 → Type 0
FunctionTree V = List ℕ → Option V

abbrev pub function_tree : MassTree FunctionTree
function_tree = record {
  run_get1 = λ t s. t s;
  run_replace = λ t s v. (inserted, λ s'. if same_bytes s s' then some v else t s');
  run_remove = λ t s s'. if same_bytes s s' then none else t s';
  run_scan = λ t s n. fault assert_failed;
}

pub function_tree-IsMap : IsMap function_tree
function_tree-IsMap = record {
  replaced = λ t s v e. cc;
  get_replace_same = λ t s v. rw (same_bytes_refl s);
  get_replace_other = λ t s s' v apart. rw (same_bytes-false s s' apart);
  get_remove_same = λ t s. rw (same_bytes_refl s);
  get_remove_other = λ t s s' apart. rw (same_bytes-false s s' apart);
}
