-- ===== src/Wormhole/Destroy.antt =====
-- src/kv/wormhole.h: the destructor.
use sidle_baselines.Base.{
  ℕ, zero, suc, ◌+◌, ◌-◌, ◌≤◌, ◌≡◌, refl, ap, ◌∙◌, Option, none, some, Option-cases, inl, inr,
  arith,
}
use sidle_baselines.Memory.{done}
use sidle_baselines.Keys.Stored.{StoredKey}
use sidle_baselines.Wormhole.Library.{WormholeLib}
use sidle_baselines.Wormhole.Wrapper.{
  Held, WormholeKv, give_back, count_ref, create, unref_all, destroy,
}
use sidle_baselines.Wormhole.Protocol.{Reach, count_refs, IsBalanced}
use sidle_baselines.Wormhole.Workers.{Reach-IsBalanced}

count_refs_grows :
    {Ref : Type 0} (cell : ℕ → Option Ref) (n i : ℕ) → count_refs i cell ≤ count_refs (n + i) cell
count_refs_grows cell zero i =
    let none_more : zero + i ≡ i = omega arith in rw none_more (omega arith)
count_refs_grows cell (suc n) i =
    let more : suc n + i ≡ suc (n + i) = omega arith in
    rw more (omega (arith, count_refs_grows cell n i))

nothing_held :
    (h : Held) → h.refs ≡ 0 → h.iters ≡ 0 → h.kvs ≡ 0 → h ≡ record { refs = 0; iters = 0; kvs = 0 }
nothing_held h r i k = rw (r, i, k)

module _ {Map : Type 0 → Type 0} {Ref : Type 0} {Iter : Type 0 → Type 0}
    (lib : WormholeLib Map Ref Iter) {V : Type 0} where
  -- no reference is left, and the iterators and copies are as they were
  abbrev AllGiven : WormholeKv Map Ref V → WormholeKv Map Ref V → Type 0
  AllGiven kv kv' =
      (kv'.held.refs ≡ 0) × (kv'.held.iters ≡ kv.held.iters) × (kv'.held.kvs ≡ kv.held.kvs)

  unref_all-none :
      (left i : ℕ) (kv : WormholeKv Map Ref V)
      → kv.worker_info.cell i ≡ none
      → unref_all lib (suc left) i kv ≡ unref_all lib left (i + 1) kv
  unfolding unref_all
  unref_all-none left i kv e = ground (arith, e)

  unref_all-some :
      (left i refs' : ℕ) (kv : WormholeKv Map Ref V) (r : Ref)
      → kv.worker_info.cell i ≡ some r
      → kv.held.refs ≡ suc refs'
      → unref_all lib (suc left) i kv
        ≡ unref_all lib left (i + 1) (record kv {
          wh_ptr = lib.wormhole_unref r kv.wh_ptr;
          held = record kv.held { refs = refs' };
        })
  unfolding unref_all give_back
  unref_all-some left i refs' kv r e more = ground (arith, e, more)

  unref_all-done :
      (left i : ℕ) (kv : WormholeKv Map Ref V)
      → kv.held.refs + count_refs i kv.worker_info.cell ≡ count_refs (left + i) kv.worker_info.cell
      → (kv' : WormholeKv Map Ref V) × (unref_all lib left i kv ≡ done kv') × AllGiven kv kv'
  unfolding unref_all
  unref_all-done zero i kv h =
      let none_more : 0 + i ≡ i = omega arith in
      let total = ap (λ n. count_refs n kv.worker_info.cell) none_more in
      (kv, refl, (omega (arith, h, total), refl, refl))
  unref_all-done (suc left) i kv h =
      let cell = kv.worker_info.cell in
      let shift : suc left + i ≡ left + (i + 1) = omega arith in
      let one : i + 1 ≡ suc i = omega arith in
      let total : count_refs (suc left + i) cell ≡ count_refs (left + (i + 1)) cell =
        ap (λ n. count_refs n cell) shift in
      let first : count_refs (i + 1) cell ≡ count_refs i cell + count_ref (cell i) = rw one refl in
      let grows = count_refs_grows cell left (i + 1) in
      elim (Option-cases (cell i)) [
        | inl e ↦
            let none_here : count_ref (cell i) ≡ 0 = rw e refl in
            let (kv', ended, given) =
              unref_all-done left (i + 1) kv (omega (arith, h, total, first, none_here)) in
            (kv', unref_all-none left i kv e ∙ ended, given)
        | inr (r, e) ↦
            let one_here : count_ref (cell i) ≡ 1 = rw e refl in
            let refs' = kv.held.refs - 1 in
            let more : kv.held.refs ≡ suc refs' = omega (arith, h, total, first, one_here, grows) in
            let kv1 : WormholeKv Map Ref V = record kv {
              wh_ptr = lib.wormhole_unref r kv.wh_ptr;
              held = record kv.held { refs = refs' };
            } in
            let (kv', ended, given) =
              unref_all-done left (i + 1) kv1 (omega (arith, h, total, first, one_here, more)) in
            (kv', unref_all-some left i refs' kv r e more ∙ ended, given)
      ]

  destroy_balanced :
      (kv : WormholeKv Map Ref V)
      → IsBalanced kv
      → destroy lib kv ≡ done (record { refs = 0; iters = 0; kvs = 0 })
  unfolding destroy
  destroy_balanced kv h =
      let size = kv.worker_info.size in
      let start : size ≡ size + 0 = omega arith in
      let total = ap (λ n. count_refs n kv.worker_info.cell) start in
      let (kv', ended, given) = unref_all-done size 0 kv (omega (arith, h.refs, total)) in
      rw ended (ap done (nothing_held kv'.held given.0 (given.1 ∙ h.iters) (given.2 ∙ h.kvs)))

  -- In every state that the workers reach from the constructor, also while some have not given back their
  -- reference, the destructor returns, and when it destroys the map the library has out no reference, no
  -- iterator and no copy of a row.
  pub Reach-destroy :
      {K : Type 0} (key : StoredKey K) (wh : Map V) (worker_num : ℕ) (kv : WormholeKv Map Ref V)
      → Reach lib key (create lib wh worker_num) kv
      → destroy lib kv ≡ done (record { refs = 0; iters = 0; kvs = 0 })
  Reach-destroy key wh worker_num kv run =
      destroy_balanced kv (Reach-IsBalanced lib key wh worker_num kv run)
