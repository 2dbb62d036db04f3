-- ===== src/Wormhole/Wrapper.antt =====
-- src/kv/wormhole.h: the state and the member functions of `WormholeKV`.
use sidle_baselines.Base.{
  ℕ, zero, suc, ◌+◌, Bool, true, false, Option, none, some, List, [], ◌∷◌, ◌++◌, length, ltb,
}
use sidle_baselines.Memory.{
  Run, done, fault, exits, assert_failed, undefined_call, double_free, ◌>>=◌, ◌>>◌, check, Array,
  fresh, read, write,
}
use sidle_baselines.Keys.Stored.{StoredKey}
use sidle_baselines.Wormhole.Library.{WormholeLib}

-- What the library has allocated for the wrapper and has not got back: references, iterators, and the
-- copies that `wormhole_get` and `wormhole_iter_next` return.
pub record Held : Type 0 where
  pub refs : ℕ
  pub iters : ℕ
  pub kvs : ℕ

-- to give back one of n
unfoldable pub give_back : ℕ → Run ℕ
give_back zero = fault double_free
give_back (suc n) = done n

pub record WormholeKv (Map : Type 0 → Type 0) (Ref : Type 0) (V : Type 0) : Type 0 where
  pub wh_ptr : Map V
  -- the `ref` of each `WorkerInfo`; none is nullptr
  pub worker_info : Array (Option Ref)
  pub held : Held

module _ {Ref : Type 0} where
  abbrev pub is_null : Option Ref → Bool
  is_null none = true
  is_null (some r) = false

  -- A call of the library takes a reference, and what it does at nullptr is not defined. The wrapper passes its
  -- `ref` on without a test: the model says that such a call is not defined, and nothing of what it does.
  abbrev pub defined_ref : Option Ref → Run Ref
  defined_ref none = fault undefined_call
  defined_ref (some r) = done r

  -- `assert(ref != nullptr)`
  abbrev pub assert_ref : Option Ref → Run Ref
  assert_ref none = fault assert_failed
  assert_ref (some r) = done r

  -- one more reference where there is one
  abbrev pub count_ref : Option Ref → ℕ
  count_ref none = 0
  count_ref (some r) = 1

module _ {Map : Type 0 → Type 0} {Ref : Type 0} {Iter : Type 0 → Type 0}
    (lib : WormholeLib Map Ref Iter) {V : Type 0} where
  -- on the map that `wormhole_create` returns
  abbrev pub create : Map V → ℕ → WormholeKv Map Ref V
  create wh worker_num = record {
    wh_ptr = wh;
    worker_info = fresh none worker_num;
    held = record { refs = 0; iters = 0; kvs = 0 };
  }

  -- `assert(worker_id < worker_info.size())`, and the worker's reference
  unfoldable pub ref_of : WormholeKv Map Ref V → ℕ → Run (Option Ref)
  ref_of kv worker_id = do check (ltb worker_id kv.worker_info.size); read kv.worker_info worker_id

  unfoldable pub worker_enter : WormholeKv Map Ref V → ℕ → Run (WormholeKv Map Ref V)
  unfolding ref_of
  worker_enter kv worker_id = do
    old ← ref_of kv worker_id
    check (is_null old)
    let got = lib.wormhole_ref kv.wh_ptr
    infos ← write kv.worker_info worker_id got.0
    done (record {
      wh_ptr = got.1;
      worker_info = infos;
      held = record kv.held { refs = kv.held.refs + count_ref got.0 };
    })

  unfoldable pub worker_exit : WormholeKv Map Ref V → ℕ → Run (WormholeKv Map Ref V)
  unfolding ref_of give_back
  worker_exit kv worker_id = do
    old ← ref_of kv worker_id
    r ← assert_ref old
    refs' ← give_back kv.held.refs
    infos ← write kv.worker_info worker_id none
    done (record {
      wh_ptr = lib.wormhole_unref r kv.wh_ptr;
      worker_info = infos;
      held = record kv.held { refs = refs' };
    })

  -- the same as entering and leaving, with a result
  unfoldable pub ref : WormholeKv Map Ref V → ℕ → Run (Bool × WormholeKv Map Ref V)
  unfolding ref_of
  ref kv worker_id = do
    old ← ref_of kv worker_id
    check (is_null old)
    let got = lib.wormhole_ref kv.wh_ptr
    infos ← write kv.worker_info worker_id got.0
    done (
      true,
      record {
        wh_ptr = got.1;
        worker_info = infos;
        held = record kv.held { refs = kv.held.refs + count_ref got.0 };
      },
    )

  unfoldable pub unref : WormholeKv Map Ref V → ℕ → Run (Bool × WormholeKv Map Ref V)
  unfolding ref_of give_back
  unref kv worker_id = do
    old ← ref_of kv worker_id
    r ← assert_ref old
    refs' ← give_back kv.held.refs
    infos ← write kv.worker_info worker_id none
    done (
      true,
      record {
        wh_ptr = lib.wormhole_unref r kv.wh_ptr;
        worker_info = infos;
        held = record kv.held { refs = refs' };
      },
    )

  -- the loop of the destructor over the workers from the i-th, `left` of them
  unfoldable pub unref_all : ℕ → ℕ → WormholeKv Map Ref V → Run (WormholeKv Map Ref V)
  unfolding give_back
  unref_all zero i kv = done kv
  unref_all (suc left) i kv = elim (kv.worker_info.cell i) [
    | none ↦ unref_all left (i + 1) kv
    | some r ↦ do
      refs' ← give_back kv.held.refs
      unref_all left (i + 1) (record kv {
        wh_ptr = lib.wormhole_unref r kv.wh_ptr;
        held = record kv.held { refs = refs' };
      })
  ]

  -- `~WormholeKV`: what is still held when the map is destroyed
  unfoldable pub destroy : WormholeKv Map Ref V → Run Held
  unfolding unref_all
  destroy kv = do kv' ← unref_all kv.worker_info.size 0 kv; done kv'.held

  -- the copy that `wormhole_get` returned is read, and freed
  unfoldable pub free_copy : Option V → WormholeKv Map Ref V → Run (Option V × WormholeKv Map Ref V)
  unfolding give_back
  free_copy none kv = done (none, kv)
  free_copy (some v) kv = do
    kvs' ← give_back (kv.held.kvs + 1)
    done (some v, record kv { held = record kv.held { kvs = kvs' } })

  module _ {K : Type 0} (stored_key : StoredKey K) where
    -- the value, where the call returns true
    unfoldable pub get : WormholeKv Map Ref V → K → ℕ → Run (Option V × WormholeKv Map Ref V)
    unfolding ref_of free_copy
    get kv k worker_id = do
      ref' ← ref_of kv worker_id
      r ← defined_ref ref'
      free_copy (lib.wormhole_get r kv.wh_ptr (stored_key.stored k)) kv

    unfoldable pub insert : WormholeKv Map Ref V → K → V → ℕ → Run (Bool × WormholeKv Map Ref V)
    unfolding ref_of
    insert kv k v worker_id = do
      ref' ← ref_of kv worker_id
      r ← defined_ref ref'
      let put = lib.wormhole_put r kv.wh_ptr (stored_key.stored k) v
      done (true, record kv { wh_ptr = put.1 })

    unfoldable pub remove : WormholeKv Map Ref V → K → ℕ → Run (Bool × WormholeKv Map Ref V)
    unfolding ref_of
    remove kv k worker_id = do
      ref' ← ref_of kv worker_id
      r ← defined_ref ref'
      let del = lib.wormhole_del r kv.wh_ptr (stored_key.stored k)
      done (true, record kv { wh_ptr = del.1 })

    -- the loop of `scan`, for `left` rows: the result, and the copies that are held
    unfoldable pub scan_loop : ℕ → Iter V → ℕ → List (K × V) → Run (List (K × V) × ℕ)
    unfolding give_back
    scan_loop zero it kvs result = done (result, kvs)
    scan_loop (suc left) it kvs result = elim ((lib.iter_next it).0) [
      | none ↦ done (result, kvs)
      | some (s, v) ↦ do
        kvs' ← give_back (kvs + 1)
        scan_loop left (lib.iter_next it).1 kvs' (result ++ (stored_key.restored s, v) ∷ [])
    ]

    -- `scan`: the rows, which replace those of `result`, and how many they are
    unfoldable pub scan :
        WormholeKv Map Ref V → K → ℕ → ℕ → Run (ℕ × List (K × V) × WormholeKv Map Ref V)
    unfolding ref_of give_back scan_loop
    scan kv k_start n worker_id = do
      ref' ← ref_of kv worker_id
      r ← defined_ref ref'
      let iters = kv.held.iters + 1
      let it = lib.iter_seek (lib.iter_create r kv.wh_ptr) (stored_key.stored k_start)
      scanned ← scan_loop n it kv.held.kvs []
      iters' ← give_back iters
      done (
        length scanned.0,
        scanned.0,
        record kv { held = record kv.held { iters = iters'; kvs = scanned.1 } },
      )

    -- both end the process
    abbrev pub lower_bound : WormholeKv Map Ref V → K → ℕ → Run Bool
    lower_bound kv k worker_id = fault exits

    abbrev pub range_scan : WormholeKv Map Ref V → K → K → ℕ → Run ℕ
    range_scan kv k_start k_end worker_id = fault exits
