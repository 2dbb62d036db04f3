-- ===== src/Masstree/WrapperMap.antt =====
-- src/kv/masstree.h: the wrapper as a map from keys to values.
use sidle_baselines.Base.{ℕ, ◌≡◌, ◌≢◌, refl, true, none, some, List}
use sidle_baselines.Memory.{done}
use sidle_baselines.Bytes.{ByteOrder}
use sidle_baselines.Keys.Packed.{KeyStruct, to_str_key}
use sidle_baselines.Masstree.Tree.{MassTree, IsMap, ReplaceResult, inserted, updated, other}
use sidle_baselines.Masstree.Wrapper.{is_replaced, get, insert, remove}

pub is_replaced_lem : (r : ReplaceResult) → r ≢ other → is_replaced r ≡ true
is_replaced_lem inserted h = refl
is_replaced_lem updated h = refl
is_replaced_lem other h = absurd (h refl)

module _ {Tree : Type 0 → Type 0} (m : MassTree Tree) (map : IsMap m) (order : ByteOrder)
    {K V : Type 0} ⦃s : KeyStruct K⦄ where
  -- On a tree that is a map, `MasstreeKV::insert` returns true. In the tree that it leaves, `get` finds
  -- the value at the key, and at every key of other bytes what it found before.
  pub insert-get :
      (t : Tree V) (k : K) (v : V)
      → (t' : Tree V) × (insert m order t k v ≡ done (true, t'))
        × (get m order t' k ≡ some v)
        × ((j : K) → to_str_key order k ≢ to_str_key order j → get m order t' j ≡ get m order t j)
  unfolding insert get
  insert-get t k v =
      let at : List ℕ = to_str_key order k in
      let ok = is_replaced_lem ((m.run_replace t at v).0) (map.replaced t at v) in
      (
        (m.run_replace t at v).1,
        rw ok,
        map.get_replace_same t at v,
        λ j apart. map.get_replace_other t at (to_str_key order j) v apart,
      )

  -- On a tree that is a map, `MasstreeKV::remove` returns true. In the tree that it leaves, `get` finds
  -- nothing at the key, and at every key of other bytes what it found before.
  pub remove-get :
      (t : Tree V) (k : K)
      → (t' : Tree V) × (remove m order t k ≡ (true, t'))
        × (get m order t' k ≡ none)
        × ((j : K) → to_str_key order k ≢ to_str_key order j → get m order t' j ≡ get m order t j)
  unfolding remove get
  remove-get t k = (
    m.run_remove t (to_str_key order k),
    refl,
    map.get_remove_same t (to_str_key order k),
    λ j apart. map.get_remove_other t (to_str_key order k) (to_str_key order j) apart,
  )
