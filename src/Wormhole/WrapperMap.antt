-- ===== src/Wormhole/WrapperMap.antt =====
-- src/kv/wormhole.h: get, insert and remove, by workers that have entered and by those that have not.
use sidle_baselines.Base.{
  ℕ, suc, ◌+◌, ◌≤◌, ◌<◌, ◌≡◌, ◌≢◌, refl, ap, ◌∙◌, true, false, Option, none, some, ltb, arith,
}
use sidle_baselines.Memory.{done, fault, assert_failed, read_lem}
use sidle_baselines.Keys.Stored.{StoredKey}
use sidle_baselines.Wormhole.Library.{WormholeLib, IsMap}
use sidle_baselines.Wormhole.Wrapper.{
  WormholeKv, give_back, ref_of, free_copy, get, insert, remove, scan, worker_exit, worker_enter,
}

pub give_back_lem : (n : ℕ) → give_back (n + 1) ≡ done n
unfolding give_back
give_back_lem n = let more : n + 1 ≡ suc n = omega arith in rw more

-- A worker of the wrapper that holds the reference.
pub record HasEntered {Map : Type 0 → Type 0} {Ref V : Type 0} (kv : WormholeKv Map Ref V) (w : ℕ)
    (r : Ref) : Type 0 where
  pub inside : w < kv.worker_info.size
  pub here : kv.worker_info.cell w ≡ some r

module _ {Map : Type 0 → Type 0} {Ref : Type 0} {Iter : Type 0 → Type 0}
    (lib : WormholeLib Map Ref Iter) {V : Type 0} (kv : WormholeKv Map Ref V) (w : ℕ) where
  pub ref_of_inside : w < kv.worker_info.size → ref_of lib kv w ≡ done (kv.worker_info.cell w)
  unfolding ref_of
  ref_of_inside h =
      let test : ltb w kv.worker_info.size ≡ true = ground arith in
      rw (test, read_lem kv.worker_info w h)

  pub ref_of_outside : kv.worker_info.size ≤ w → ref_of lib kv w ≡ fault assert_failed
  unfolding ref_of
  ref_of_outside h = let test : ltb w kv.worker_info.size ≡ false = ground arith in rw test

  pub ref_of_entered : (r : Ref) → HasEntered kv w r → ref_of lib kv w ≡ done (some r)
  ref_of_entered r e = ref_of_inside e.inside ∙ ap done e.here

module _ {Map : Type 0 → Type 0} {Ref : Type 0} {Iter : Type 0 → Type 0}
    (lib : WormholeLib Map Ref Iter) {V : Type 0} (kv : WormholeKv Map Ref V) where
  pub free_copy_lem : (o : Option V) → free_copy lib o kv ≡ done (o, kv)
  unfolding free_copy
  free_copy_lem none = refl
  free_copy_lem (some v) = rw (give_back_lem kv.held.kvs)

module _ {Map : Type 0 → Type 0} {Ref : Type 0} {Iter : Type 0 → Type 0}
    (lib : WormholeLib Map Ref Iter) (map : IsMap lib) {V K : Type 0} (key : StoredKey K) where
  -- The abstract view: the map from keys to values.
  abbrev pub view : WormholeKv Map Ref V → K → Option V
  view kv k = map.find kv.wh_ptr (key.stored k)

  -- By a worker that has entered, `get` returns the map's value, and leaves the wrapper as it was: the
  -- copy that the library allocated is freed.
  pub get-view :
      (kv : WormholeKv Map Ref V) (k : K) (w : ℕ) (r : Ref)
      → HasEntered kv w r
      → get lib key kv k w ≡ done (view kv k, kv)
  unfolding get
  get-view kv k w r e =
      rw (ref_of_entered lib kv w r e, map.get_find r kv.wh_ptr (key.stored k))
        (free_copy_lem lib kv (map.find kv.wh_ptr (key.stored k)))

  -- By a worker that has entered, where the library stores the row, `insert` returns true. From then on
  -- every worker that has entered gets the value at the key, and at each key of other bytes what the map
  -- had there before. The workers' references, and what is held of the library, are as they were.
  pub insert-view :
      (kv : WormholeKv Map Ref V) (k : K) (v : V) (w : ℕ) (r : Ref)
      → HasEntered kv w r
      → (lib.wormhole_put r kv.wh_ptr (key.stored k) v).0 ≡ true
      → (kv' : WormholeKv Map Ref V) × (insert lib key kv k v w ≡ done (true, kv'))
        × ((j : ℕ) (q : Ref) → HasEntered kv j q → get lib key kv' k j ≡ done (some v, kv'))
        × ((i : K) (j : ℕ) (q : Ref)
            → key.stored k ≢ key.stored i
            → HasEntered kv j q
            → get lib key kv' i j ≡ done (view kv i, kv'))
        × (kv'.worker_info ≡ kv.worker_info)
        × (kv'.held ≡ kv.held)
  unfolding insert
  insert-view kv k v w r e stored =
      let map' = (lib.wormhole_put r kv.wh_ptr (key.stored k) v).1 in
      let kv' : WormholeKv Map Ref V = record kv { wh_ptr = map' } in
      let entered : (j : ℕ) (q : Ref) → HasEntered kv j q → HasEntered kv' j q =
        λ j q h. record { inside = h.inside; here = h.here } in
      (
        kv',
        rw (ref_of_entered lib kv w r e),
        λ j q h.
            get-view kv' k j q (entered j q h)
            ∙ ap (λ o. done (o, kv')) (map.put_same r kv.wh_ptr (key.stored k) v stored),
        λ i j q apart h.
            get-view kv' i j q (entered j q h)
            ∙ ap (λ o. done (o, kv'))
                (map.put_other r kv.wh_ptr (key.stored k) (key.stored i) v apart),
        refl,
        refl,
      )

  -- Where the library refuses the row, `insert` by a worker that has entered returns true all the same,
  -- and the map is as it was at every key.
  pub insert-refused :
      (kv : WormholeKv Map Ref V) (k : K) (v : V) (w : ℕ) (r : Ref)
      → HasEntered kv w r
      → (lib.wormhole_put r kv.wh_ptr (key.stored k) v).0 ≡ false
      → (kv' : WormholeKv Map Ref V) × (insert lib key kv k v w ≡ done (true, kv'))
        × ((i : K) → view kv' i ≡ view kv i)
  unfolding insert
  insert-refused kv k v w r e refused = (
    record kv { wh_ptr = (lib.wormhole_put r kv.wh_ptr (key.stored k) v).1 },
    rw (ref_of_entered lib kv w r e),
    λ i. map.put_refused r kv.wh_ptr (key.stored k) (key.stored i) v refused,
  )

  -- By a worker that has entered, `remove` returns true. From then on every worker that has entered gets
  -- nothing at the key, and at each key of other bytes what the map had there before. The workers'
  -- references, and what is held of the library, are as they were.
  pub remove-view :
      (kv : WormholeKv Map Ref V) (k : K) (w : ℕ) (r : Ref)
      → HasEntered kv w r
      → (kv' : WormholeKv Map Ref V) × (remove lib key kv k w ≡ done (true, kv'))
        × ((j : ℕ) (q : Ref) → HasEntered kv j q → get lib key kv' k j ≡ done (none, kv'))
        × ((i : K) (j : ℕ) (q : Ref)
            → key.stored k ≢ key.stored i
            → HasEntered kv j q
            → get lib key kv' i j ≡ done (view kv i, kv'))
        × (kv'.worker_info ≡ kv.worker_info)
        × (kv'.held ≡ kv.held)
  unfolding remove
  remove-view kv k w r e =
      let map' = (lib.wormhole_del r kv.wh_ptr (key.stored k)).1 in
      let kv' : WormholeKv Map Ref V = record kv { wh_ptr = map' } in
      let entered : (j : ℕ) (q : Ref) → HasEntered kv j q → HasEntered kv' j q =
        λ j q h. record { inside = h.inside; here = h.here } in
      (
        kv',
        rw (ref_of_entered lib kv w r e),
        λ j q h.
            get-view kv' k j q (entered j q h)
            ∙ ap (λ o. done (o, kv')) (map.del_same r kv.wh_ptr (key.stored k)),
        λ i j q apart h.
            get-view kv' i j q (entered j q h)
            ∙ ap (λ o. done (o, kv'))
                (map.del_other r kv.wh_ptr (key.stored k) (key.stored i) apart),
        refl,
        refl,
      )

module _ {Map : Type 0 → Type 0} {Ref : Type 0} {Iter : Type 0 → Type 0}
    (lib : WormholeLib Map Ref Iter) {V K : Type 0} (key : StoredKey K) where
  -- What a worker outside `worker_info` calls fails its assertion.
  pub outside_faults :
      (kv : WormholeKv Map Ref V) (w : ℕ) (k : K) (v : V) (n : ℕ)
      → kv.worker_info.size ≤ w
      → (get lib key kv k w ≡ fault assert_failed)
        × (insert lib key kv k v w ≡ fault assert_failed)
        × (remove lib key kv k w ≡ fault assert_failed)
        × (scan lib key kv k n w ≡ fault assert_failed)
        × (worker_enter lib kv w ≡ fault assert_failed)
        × (worker_exit lib kv w ≡ fault assert_failed)
  unfolding get insert remove scan worker_enter worker_exit
  outside_faults kv w k v n outside =
      let e = ref_of_outside lib kv w outside in (rw e, rw e, rw e, rw e, rw e, rw e)
