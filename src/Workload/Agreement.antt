-- ===== src/Workload/Agreement.antt =====
-- src/kv/masstree.h and src/kv/wormhole.h under the same workload, with the keys of
-- benchmark/synthetic/micro_base.h.
use sidle_baselines.Base.{ℕ, ◌<◌, ◌≡◌, refl, sym, ap, ◌∙◌, fun_ext, true, List, [], ◌∷◌, reverse}
use sidle_baselines.Memory.{done}
use sidle_baselines.Bytes.{
  ByteOrder, little, big, store, store-little, store-big, little_endian-little, little_endian-big,
}
use sidle_baselines.Keys.IntKey.{Key, to_wh_key, str_key_image}
use sidle_baselines.Keys.Stored.{int_key}
use sidle_baselines.Keys.Packed.{KeyStruct, to_str_key, image}
use sidle_baselines.Masstree.Tree.{MassTree}
use sidle_baselines.Masstree.Tree
use sidle_baselines.Wormhole.Library.{WormholeLib}
use sidle_baselines.Wormhole.Library
use sidle_baselines.Wormhole.Wrapper.{WormholeKv}
use sidle_baselines.Workload.Index.{
  Index, IsIndex, Op, Reply, AllWorkers, run, replies, after_all, run-replies,
}
use sidle_baselines.Workload.MasstreeIndex.{masstree_index, masstree_index-IsIndex}
use sidle_baselines.Workload.WormholeIndex.{wormhole_index, wormhole_index-IsIndex, AllEntered}

-- `Key` as a struct of one field, which is its model key
instance abbrev pub int_struct : KeyStruct Key
int_struct = record { layout = λ k. (8, k.key) ∷ []; to_model_key = λ k. k.key ∷ [] }

image-one : (order : ByteOrder) (v : ℕ) → image order ((8, v) ∷ []) ≡ store order 8 v
unfolding image
image-one little v = refl
image-one big v = refl

-- Both wrappers store a key under the same bytes.
same_stored : (order : ByteOrder) (k : Key) → to_str_key order k ≡ (int_key order).stored k
unfolding to_str_key to_wh_key
same_stored little k =
    rw (little_endian-little, image-one little k.key)
      (ap reverse (store-little 8 k.key) ∙ sym (str_key_image little k))
same_stored big k =
    rw (little_endian-big, image-one big k.key) (store-big 8 k.key ∙ sym (str_key_image big k))

any_workers :
    {K V : Type 0} (P : ℕ → Type 0) (ops : List (ℕ × Op K V))
    → AllWorkers P ops
    → AllWorkers (λ w. Unit) ops
any_workers P [] h = tt
any_workers P ((w, op) ∷ ops) h = (tt, any_workers P ops h.1)

module _ {K V S₁ S₂ : Type 0} (index₁ : Index S₁ K V) (index₂ : Index S₂ K V)
    (stored₁ stored₂ : K → List ℕ) (law₁ : IsIndex index₁ stored₁)
    (law₂ : IsIndex index₂ stored₂) where
  -- Two indexes that keep their promises, that store keys under the same bytes and stand for the same map,
  -- give a workload the same replies, and stand for the same map after it.
  pub run-agree :
      (ops : List (ℕ × Op K V)) (s₁ : S₁) (s₂ : S₂)
      → stored₁ ≡ stored₂
      → law₁.find s₁ ≡ law₂.find s₂
      → law₁.Good s₁
      → law₂.Good s₂
      → AllWorkers law₁.Worker ops
      → AllWorkers law₂.Worker ops
      → (rs : List (Reply V)) × (s₁' : S₁) × (s₂' : S₂) × (run index₁ ops s₁ ≡ done (rs, s₁'))
        × (run index₂ ops s₂ ≡ done (rs, s₂'))
        × (rs ≡ replies stored₁ ops (law₁.find s₁))
        × (law₁.find s₁' ≡ law₂.find s₂')
  run-agree ops s₁ s₂ bytes same good₁ good₂ known₁ known₂ =
      let (s₁', ran₁, good₁', found₁) = run-replies index₁ stored₁ law₁ ops s₁ good₁ known₁ in
      let (s₂', ran₂, good₂', found₂) = run-replies index₂ stored₂ law₂ ops s₂ good₂ known₂ in
      let rs = replies stored₁ ops (law₁.find s₁) in
      let rs_same : rs ≡ replies stored₂ ops (law₂.find s₂) = rw (bytes, same) refl in
      let after_same : after_all stored₁ ops (law₁.find s₁) ≡ after_all stored₂ ops (law₂.find s₂) =
        rw (bytes, same) refl in
      (
        rs,
        s₁',
        s₂',
        ran₁,
        ran₂ ∙ ap (λ xs. done (xs, s₂')) (sym rs_same),
        refl,
        found₁ ∙ after_same ∙ sym found₂,
      )

module _ {T : Type 0 → Type 0} (m : MassTree T) (tree : Tree.IsMap m) {Map : Type 0 → Type 0}
    {Ref : Type 0} {Iter : Type 0 → Type 0} (lib : WormholeLib Map Ref Iter)
    (map : Library.IsMap lib) {V : Type 0}
    (stores : (r : Ref) (t : Map V) (s : List ℕ) (v : V)
      → (lib.wormhole_put r t s v).0 ≡ true) where
  -- Over a Masstree and a Wormhole that are maps, of which the second stores every row, that have the same
  -- rows, and where the first n workers of `WormholeKV` have entered: calls of get, insert and remove
  -- with `Key`s, by these workers, one after another in any order, have the same replies from both
  -- wrappers. They are the replies of the map, and both are left with the same rows.
  pub masstree-wormhole :
      (order : ByteOrder) (n : ℕ) (ops : List (ℕ × Op Key V)) (t : T V) (kv : WormholeKv Map Ref V)
      → ((b : List ℕ) → m.run_get1 t b ≡ map.find kv.wh_ptr b)
      → AllEntered lib (int_key order) n kv
      → AllWorkers (λ w. w < n) ops
      → (rs : List (Reply V)) × (t' : T V) × (kv' : WormholeKv Map Ref V) × (run
            (masstree_index m order)
            ops
            t
          ≡ done (rs, t'))
        × (run (wormhole_index lib (int_key order)) ops kv ≡ done (rs, kv'))
        × (rs ≡ replies (λ k. to_str_key order k) ops (λ b. m.run_get1 t b))
        × ((b : List ℕ) → m.run_get1 t' b ≡ map.find kv'.wh_ptr b)
  unfolding masstree_index-IsIndex wormhole_index-IsIndex
  masstree-wormhole order n ops t kv same entered known =
      let (rs, t', kv', ran₁, ran₂, meant, left) =
        run-agree (masstree_index m order) (wormhole_index lib (int_key order))
          (λ k. to_str_key order k) (int_key order).stored (masstree_index-IsIndex m order tree)
          (wormhole_index-IsIndex lib (int_key order) map stores n) ops t kv
          (fun_ext (λ k. same_stored order k)) (fun_ext same) tt entered
          (any_workers (λ w. w < n) ops known) known in
      (rs, t', kv', ran₁, ran₂, meant, λ b. ap (λ f. f b) left)
