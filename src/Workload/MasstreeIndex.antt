-- ===== src/Workload/MasstreeIndex.antt =====
-- src/kv/masstree.h: `MasstreeKV` as an index.
use sidle_baselines.Base.{ℕ, ◌≡◌, refl, ap, true, none, some, List}
use sidle_baselines.Memory.{done}
use sidle_baselines.Bytes.{ByteOrder}
use sidle_baselines.Bytes.Equality.{updated, updated_lem}
use sidle_baselines.Keys.Packed.{KeyStruct, to_str_key}
use sidle_baselines.Masstree.Tree.{MassTree, IsMap}
use sidle_baselines.Masstree.Wrapper.{get, insert, remove}
use sidle_baselines.Masstree.WrapperMap.{is_replaced_lem}
use sidle_baselines.Workload.Index.{Index, IsIndex}

module _ {T : Type 0 → Type 0} (m : MassTree T) (order : ByteOrder) {K V : Type 0}
    ⦃s : KeyStruct K⦄ where
  -- no operation looks at the worker
  abbrev pub masstree_index : Index (T V) K V
  masstree_index = record {
    get = λ t k w. done (get m order t k, t);
    insert = λ t k v w. insert m order t k v;
    remove = λ t k w. done (remove m order t k);
  }

  pub get_found : (t : T V) (k : K) → get m order t k ≡ m.run_get1 t (to_str_key order k)
  unfolding get
  get_found t k = refl

  module _ (map : IsMap m) where
    pub insert_found :
        (t : T V) (k : K) (v : V)
        → (t' : T V) × (insert m order t k v ≡ done (true, t'))
          × Unit {0}
          × ((b : List ℕ)
              → m.run_get1 t' b ≡ updated (λ b. m.run_get1 t b) (to_str_key order k) (some v) b)
    unfolding insert
    insert_found t k v =
        let at = to_str_key order k in
        let t' = (m.run_replace t at v).1 in
        let ok = is_replaced_lem ((m.run_replace t at v).0) (map.replaced t at v) in
        (
          t',
          rw ok refl,
          tt,
          updated_lem (λ b. m.run_get1 t b) (λ b. m.run_get1 t' b) at (some v)
              (map.get_replace_same t at v) (λ b apart. map.get_replace_other t at b v apart),
        )

    pub remove_found :
        (t : T V) (k : K)
        → (t' : T V) × (done (remove m order t k) ≡ done (true, t'))
          × Unit {0}
          × ((b : List ℕ)
              → m.run_get1 t' b ≡ updated (λ b. m.run_get1 t b) (to_str_key order k) none b)
    unfolding remove
    remove_found t k =
        let at = to_str_key order k in
        let t' = m.run_remove t at in
        (
          t',
          refl,
          tt,
          updated_lem (λ b. m.run_get1 t b) (λ b. m.run_get1 t' b) at none
              (map.get_remove_same t at) (λ b apart. map.get_remove_other t at b apart),
        )

    -- over a tree that is a map: an index in every state, and to every worker
    unfoldable pub masstree_index-IsIndex : IsIndex masstree_index (λ k. to_str_key order k)
    masstree_index-IsIndex = record {
      Good = λ t. Unit;
      Worker = λ w. Unit;
      find = λ t b. m.run_get1 t b;
      get_find = λ t k w good known. ap (λ o. done (o, t)) (get_found t k);
      insert_find = λ t k v w good known. insert_found t k v;
      remove_find = λ t k w good known. remove_found t k;
    }
