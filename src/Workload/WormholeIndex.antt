-- ===== src/Workload/WormholeIndex.antt =====
-- src/kv/wormhole.h: `WormholeKV` as an index, to the workers that have entered.
use sidle_baselines.Base.{ℕ, ◌<◌, ◌≡◌, refl, true, none, some, List}
use sidle_baselines.Memory.{done}
use sidle_baselines.Bytes.Equality.{updated, updated_lem}
use sidle_baselines.Keys.Stored.{StoredKey}
use sidle_baselines.Wormhole.Library.{WormholeLib, IsMap}
use sidle_baselines.Wormhole.Wrapper.{WormholeKv, get, insert, remove}
use sidle_baselines.Wormhole.WrapperMap.{HasEntered, get-view, ref_of_entered}
use sidle_baselines.Workload.Index.{Index, IsIndex}

module _ {Map : Type 0 → Type 0} {Ref : Type 0} {Iter : Type 0 → Type 0}
    (lib : WormholeLib Map Ref Iter) {V K : Type 0} (key : StoredKey K) where
  abbrev pub wormhole_index : Index (WormholeKv Map Ref V) K V
  wormhole_index = record {
    get = λ kv k w. get lib key kv k w;
    insert = λ kv k v w. insert lib key kv k v w;
    remove = λ kv k w. remove lib key kv k w;
  }

  -- the first n workers have entered
  abbrev pub AllEntered : ℕ → WormholeKv Map Ref V → Type 0
  AllEntered n kv = (w : ℕ) → w < n → (r : Ref) × HasEntered kv w r

  module _ (map : IsMap lib)
      (stores : (r : Ref) (t : Map V) (s : List ℕ) (v : V) → (lib.wormhole_put r t s v).0 ≡ true)
      (n : ℕ) where
    entered_with :
        (kv : WormholeKv Map Ref V) (t : Map V)
        → AllEntered n kv
        → AllEntered n (record kv { wh_ptr = t })
    entered_with kv t good w known =
        let (r, e) = good w known in (r, record { inside = e.inside; here = e.here })

    pub get_found :
        (kv : WormholeKv Map Ref V) (k : K) (w : ℕ)
        → AllEntered n kv
        → w < n
        → get lib key kv k w ≡ done (map.find kv.wh_ptr (key.stored k), kv)
    get_found kv k w good known = let (r, e) = good w known in get-view lib map key kv k w r e

    pub insert_found :
        (kv : WormholeKv Map Ref V) (k : K) (v : V) (w : ℕ)
        → AllEntered n kv
        → w < n
        → (kv' : WormholeKv Map Ref V) × (insert lib key kv k v w ≡ done (true, kv'))
          × AllEntered n kv'
          × ((b : List ℕ)
              → map.find kv'.wh_ptr b
                ≡ updated (λ b. map.find kv.wh_ptr b) (key.stored k) (some v) b)
    unfolding insert
    insert_found kv k v w good known =
        let (r, e) = good w known in
        let at = key.stored k in
        let t' = (lib.wormhole_put r kv.wh_ptr at v).1 in
        (
          record kv { wh_ptr = t' },
          rw (ref_of_entered lib kv w r e) refl,
          entered_with kv t' good,
          updated_lem (λ b. map.find kv.wh_ptr b) (λ b. map.find t' b) at (some v)
              (map.put_same r kv.wh_ptr at v (stores r kv.wh_ptr at v))
              (λ b apart. map.put_other r kv.wh_ptr at b v apart),
        )

    pub remove_found :
        (kv : WormholeKv Map Ref V) (k : K) (w : ℕ)
        → AllEntered n kv
        → w < n
        → (kv' : WormholeKv Map Ref V) × (remove lib key kv k w ≡ done (true, kv'))
          × AllEntered n kv'
          × ((b : List ℕ)
              → map.find kv'.wh_ptr b ≡ updated (λ b. map.find kv.wh_ptr b) (key.stored k) none b)
    unfolding remove
    remove_found kv k w good known =
        let (r, e) = good w known in
        let at = key.stored k in
        let t' = (lib.wormhole_del r kv.wh_ptr at).1 in
        (
          record kv { wh_ptr = t' },
          rw (ref_of_entered lib kv w r e) refl,
          entered_with kv t' good,
          updated_lem (λ b. map.find kv.wh_ptr b) (λ b. map.find t' b) at none
              (map.del_same r kv.wh_ptr at) (λ b apart. map.del_other r kv.wh_ptr at b apart),
        )

    -- over a library that is a map and stores every row, where the first n workers have entered: an index
    -- to these
    unfoldable pub wormhole_index-IsIndex : IsIndex wormhole_index key.stored
    wormhole_index-IsIndex = record {
      Good = λ kv. AllEntered n kv;
      Worker = λ w. w < n;
      find = λ kv b. map.find kv.wh_ptr b;
      get_find = λ kv k w good known. get_found kv k w good known;
      insert_find = λ kv k v w good known. insert_found kv k v w good known;
      remove_find = λ kv k w good known. remove_found kv k w good known;
    }
