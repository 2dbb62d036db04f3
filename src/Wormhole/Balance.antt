-- ===== src/Wormhole/Balance.antt =====
-- src/kv/wormhole.h: what each call of a `WormholeKV` keeps of the references, iterators and copies.
use sidle_baselines.Base.{
  ℕ, suc, ◌+◌, ◌-◌, ◌≤◌, ◌<◌, ◌≡◌, refl, true, Option, none, some, [], ltb, Bool-cases,
  Option-cases, inl, inr, arith,
}
use sidle_baselines.Memory.{done, written, write_lem, Returns}
use sidle_baselines.Keys.Stored.{StoredKey}
use sidle_baselines.Wormhole.Library.{WormholeLib}
use sidle_baselines.Wormhole.Wrapper.{
  WormholeKv, give_back, count_ref, worker_enter, worker_exit, ref, unref, get, insert, remove,
  scan,
}
use sidle_baselines.Wormhole.WrapperMap.{
  ref_of_inside, ref_of_outside, give_back_lem, free_copy_lem,
}
use sidle_baselines.Wormhole.Scan.{scan_loop-done}
use sidle_baselines.Wormhole.Protocol.{IsBalanced, count_refs-written}

-- A worker outside `worker_info`, one that holds no reference, or one that holds one.
pub data Standing {Map : Type 0 → Type 0} {Ref V : Type 0} (kv : WormholeKv Map Ref V) (w : ℕ)
    : Type 0 where
  outside : kv.worker_info.size ≤ w → Standing kv w
  idle : w < kv.worker_info.size → kv.worker_info.cell w ≡ none → Standing kv w
  active : (r : Ref) → w < kv.worker_info.size → kv.worker_info.cell w ≡ some r → Standing kv w

pub standing :
    {Map : Type 0 → Type 0} {Ref V : Type 0} (kv : WormholeKv Map Ref V) (w : ℕ) → Standing kv w
standing kv w = elim (Bool-cases (ltb w kv.worker_info.size)) [
  | inl t ↦
      let inside : w < kv.worker_info.size = ground (arith, t) in
      elim (Option-cases (kv.worker_info.cell w)) [
        | inl e ↦ idle inside e
        | inr (r, e) ↦ active r inside e
      ]
  | inr f ↦ outside (ground (arith, f))
]

module _ {Map : Type 0 → Type 0} {Ref V : Type 0} where
  -- the wrapper, with what `wormhole_ref` gave the worker
  abbrev pub took : WormholeKv Map Ref V → ℕ → Option Ref → Map V → WormholeKv Map Ref V
  took kv w o map = record {
    wh_ptr = map;
    worker_info = written kv.worker_info w o;
    held = record kv.held { refs = kv.held.refs + count_ref o };
  }

  -- the wrapper, without the reference of the worker
  abbrev pub gave : WormholeKv Map Ref V → ℕ → ℕ → Map V → WormholeKv Map Ref V
  gave kv w refs' map = record {
    wh_ptr = map;
    worker_info = written kv.worker_info w none;
    held = record kv.held { refs = refs' };
  }

  took-IsBalanced :
      (kv : WormholeKv Map Ref V) (w : ℕ) (map : Map V) (o : Option Ref)
      → IsBalanced kv
      → w < kv.worker_info.size
      → kv.worker_info.cell w ≡ none
      → IsBalanced (took kv w o map)
  took-IsBalanced kv w map o balanced inside empty =
      let count = count_refs-written kv.worker_info.size w kv.worker_info.cell o inside in
      let before : count_ref (kv.worker_info.cell w) ≡ 0 = rw empty refl in
      record {
        refs = omega (arith, count, before, balanced.refs);
        iters = balanced.iters;
        kvs = balanced.kvs;
      }

  pub gave-IsBalanced :
      (kv : WormholeKv Map Ref V) (w : ℕ) (map : Map V) (r : Ref) (refs' : ℕ)
      → IsBalanced kv
      → w < kv.worker_info.size
      → kv.worker_info.cell w ≡ some r
      → kv.held.refs ≡ suc refs'
      → IsBalanced (gave kv w refs' map)
  gave-IsBalanced kv w map r refs' balanced inside full more =
      let count = count_refs-written kv.worker_info.size w kv.worker_info.cell none inside in
      let before : count_ref (kv.worker_info.cell w) ≡ 1 = rw full refl in
      record {
        refs = omega (arith, count, before, balanced.refs, more);
        iters = balanced.iters;
        kvs = balanced.kvs;
      }

  -- Where a worker holds a reference, the library has one out.
  pub some_held :
      (kv : WormholeKv Map Ref V) (w : ℕ) (r : Ref)
      → IsBalanced kv
      → w < kv.worker_info.size
      → kv.worker_info.cell w ≡ some r
      → (refs' : ℕ) × (kv.held.refs ≡ suc refs')
  some_held kv w r balanced inside full =
      let count = count_refs-written kv.worker_info.size w kv.worker_info.cell none inside in
      let before : count_ref (kv.worker_info.cell w) ≡ 1 = rw full refl in
      (kv.held.refs - 1, omega (arith, count, before, balanced.refs))

module _ {Map : Type 0 → Type 0} {Ref : Type 0} {Iter : Type 0 → Type 0}
    (lib : WormholeLib Map Ref Iter) {V : Type 0} (kv : WormholeKv Map Ref V) (w : ℕ) where
  pub worker_exit_active :
      (r : Ref) (refs' : ℕ)
      → w < kv.worker_info.size
      → kv.worker_info.cell w ≡ some r
      → kv.held.refs ≡ suc refs'
      → worker_exit lib kv w ≡ done (gave kv w refs' (lib.wormhole_unref r kv.wh_ptr))
  unfolding worker_exit give_back
  worker_exit_active r refs' inside full more =
      rw (ref_of_inside lib kv w inside, full, more, write_lem kv.worker_info w none inside)

  unref_active :
      (r : Ref) (refs' : ℕ)
      → w < kv.worker_info.size
      → kv.worker_info.cell w ≡ some r
      → kv.held.refs ≡ suc refs'
      → unref lib kv w ≡ done (true, gave kv w refs' (lib.wormhole_unref r kv.wh_ptr))
  unfolding unref give_back
  unref_active r refs' inside full more =
      rw (ref_of_inside lib kv w inside, full, more, write_lem kv.worker_info w none inside)

  pub worker_enter_idle :
      w < kv.worker_info.size
      → kv.worker_info.cell w ≡ none
      → worker_enter lib kv w
        ≡ done (took kv w (lib.wormhole_ref kv.wh_ptr).0 (lib.wormhole_ref kv.wh_ptr).1)
  unfolding worker_enter
  worker_enter_idle inside empty = rw (
    ref_of_inside lib kv w inside,
    empty,
    write_lem kv.worker_info w (lib.wormhole_ref kv.wh_ptr).0 inside,
  )

  ref_idle :
      w < kv.worker_info.size
      → kv.worker_info.cell w ≡ none
      → ref lib kv w
        ≡ done (true, took kv w (lib.wormhole_ref kv.wh_ptr).0 (lib.wormhole_ref kv.wh_ptr).1)
  unfolding ref
  ref_idle inside empty = rw (
    ref_of_inside lib kv w inside,
    empty,
    write_lem kv.worker_info w (lib.wormhole_ref kv.wh_ptr).0 inside,
  )

  pub worker_enter-keeps : IsBalanced kv → Returns IsBalanced (worker_enter lib kv w)
  unfolding worker_enter
  worker_enter-keeps balanced = elim (standing kv w) [
    | outside h ↦ rw (ref_of_outside lib kv w h) tt
    | idle h e ↦ rw (worker_enter_idle h e) (took-IsBalanced kv w _ _ balanced h e)
    | active r h e ↦ rw (ref_of_inside lib kv w h, e) tt
  ]

  pub ref-keeps : IsBalanced kv → Returns (λ r. IsBalanced r.1) (ref lib kv w)
  unfolding ref
  ref-keeps balanced = elim (standing kv w) [
    | outside h ↦ rw (ref_of_outside lib kv w h) tt
    | idle h e ↦ rw (ref_idle h e) (took-IsBalanced kv w _ _ balanced h e)
    | active r h e ↦ rw (ref_of_inside lib kv w h, e) tt
  ]

  pub worker_exit-keeps : IsBalanced kv → Returns IsBalanced (worker_exit lib kv w)
  unfolding worker_exit
  worker_exit-keeps balanced = elim (standing kv w) [
    | outside h ↦ rw (ref_of_outside lib kv w h) tt
    | idle h e ↦ rw (ref_of_inside lib kv w h, e) tt
    | active r h e ↦
        let (n, more) = some_held kv w r balanced h e in
        rw (worker_exit_active r n h e more) (gave-IsBalanced kv w _ r n balanced h e more)
  ]

  pub unref-keeps : IsBalanced kv → Returns (λ r. IsBalanced r.1) (unref lib kv w)
  unfolding unref
  unref-keeps balanced = elim (standing kv w) [
    | outside h ↦ rw (ref_of_outside lib kv w h) tt
    | idle h e ↦ rw (ref_of_inside lib kv w h, e) tt
    | active r h e ↦
        let (n, more) = some_held kv w r balanced h e in
        rw (unref_active r n h e more) (gave-IsBalanced kv w _ r n balanced h e more)
  ]

  module _ {K : Type 0} (key : StoredKey K) (k : K) (balanced : IsBalanced kv) where
    pub get-keeps : Returns (λ r. IsBalanced r.1) (get lib key kv k w)
    unfolding get
    get-keeps = elim (standing kv w) [
      | outside h ↦ rw (ref_of_outside lib kv w h) tt
      | idle h e ↦ rw (ref_of_inside lib kv w h, e) tt
      | active r h e ↦
          let o = lib.wormhole_get r kv.wh_ptr (key.stored k) in
          rw (ref_of_inside lib kv w h, e, free_copy_lem lib kv o) balanced
    ]

    pub insert-keeps : (v : V) → Returns (λ r. IsBalanced r.1) (insert lib key kv k v w)
    unfolding insert
    insert-keeps v = elim (standing kv w) [
      | outside h ↦ rw (ref_of_outside lib kv w h) tt
      | idle h e ↦ rw (ref_of_inside lib kv w h, e) tt
      | active r h e ↦
          rw (ref_of_inside lib kv w h, e)
            (record { refs = balanced.refs; iters = balanced.iters; kvs = balanced.kvs })
    ]

    pub remove-keeps : Returns (λ r. IsBalanced r.1) (remove lib key kv k w)
    unfolding remove
    remove-keeps = elim (standing kv w) [
      | outside h ↦ rw (ref_of_outside lib kv w h) tt
      | idle h e ↦ rw (ref_of_inside lib kv w h, e) tt
      | active r h e ↦
          rw (ref_of_inside lib kv w h, e)
            (record { refs = balanced.refs; iters = balanced.iters; kvs = balanced.kvs })
    ]

    pub scan-keeps : (n : ℕ) → Returns (λ r. IsBalanced r.2) (scan lib key kv k n w)
    unfolding scan
    scan-keeps n = elim (standing kv w) [
      | outside h ↦ rw (ref_of_outside lib kv w h) tt
      | idle h e ↦ rw (ref_of_inside lib kv w h, e) tt
      | active r h e ↦
          let it = lib.iter_seek (lib.iter_create r kv.wh_ptr) (key.stored k) in
          let (rows, ended) = scan_loop-done lib key n it kv.held.kvs [] in
          rw (ref_of_inside lib kv w h, e, ended, give_back_lem kv.held.iters) balanced
    ]
