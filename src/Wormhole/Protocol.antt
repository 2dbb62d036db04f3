-- ===== src/Wormhole/Protocol.antt =====
-- src/kv/wormhole.h: the calls of a `WormholeKV` as steps, one worker after another in any order, and what
-- holds between them.
use sidle_baselines.Base.{
  ℕ, zero, suc, ◌+◌, ◌≤◌, ◌<◌, ◌≡◌, refl, sym, ap, Bool, Option, none, List, ◌==◌, if◌then◌else◌,
  Bool-cases, inl, inr, arith,
}
use sidle_baselines.Memory.{done}
use sidle_baselines.Keys.Stored.{StoredKey}
use sidle_baselines.Wormhole.Library.{WormholeLib}
use sidle_baselines.Wormhole.Wrapper.{
  WormholeKv, count_ref, create, worker_enter, worker_exit, ref, unref, get, insert, remove, scan,
}

module _ {Map : Type 0 → Type 0} {Ref : Type 0} {Iter : Type 0 → Type 0}
    (lib : WormholeLib Map Ref Iter) {V K : Type 0} (key : StoredKey K) where
  -- A call that returns, by a worker.
  pub data Step (kv kv' : WormholeKv Map Ref V) : Type 0 where
    enters : (w : ℕ) → worker_enter lib kv w ≡ done kv' → Step kv kv'
    exits : (w : ℕ) → worker_exit lib kv w ≡ done kv' → Step kv kv'
    refs : (w : ℕ) (r : Bool) → ref lib kv w ≡ done (r, kv') → Step kv kv'
    unrefs : (w : ℕ) (r : Bool) → unref lib kv w ≡ done (r, kv') → Step kv kv'
    gets : (w : ℕ) (k : K) (o : Option V) → get lib key kv k w ≡ done (o, kv') → Step kv kv'
    inserts :
        (w : ℕ) (k : K) (v : V) (r : Bool) → insert lib key kv k v w ≡ done (r, kv') → Step kv kv'
    removes : (w : ℕ) (k : K) (r : Bool) → remove lib key kv k w ≡ done (r, kv') → Step kv kv'
    scans :
        (w : ℕ) (k : K) (n count : ℕ) (rows : List (K × V))
        → scan lib key kv k n w ≡ done (count, rows, kv')
        → Step kv kv'

  pub data Reach (kv : WormholeKv Map Ref V) : WormholeKv Map Ref V → Type 0 where
    here : Reach kv kv
    next : {kv' kv'' : WormholeKv Map Ref V} → Reach kv kv' → Step kv' kv'' → Reach kv kv''

-- the references among the first n cells
abbrev pub count_refs : {Ref : Type 0} → ℕ → (ℕ → Option Ref) → ℕ
count_refs zero cell = 0
count_refs (suc n) cell = count_refs n cell + count_ref (cell n)

-- The library has out one reference for each worker that holds one, no iterator and no copy of a row.
pub record IsBalanced {Map : Type 0 → Type 0} {Ref V : Type 0} (kv : WormholeKv Map Ref V)
    : Type 0 where
  pub refs : kv.held.refs ≡ count_refs kv.worker_info.size kv.worker_info.cell
  pub iters : kv.held.iters ≡ 0
  pub kvs : kv.held.kvs ≡ 0

count_refs_same :
    {Ref : Type 0} (n w : ℕ) (cell : ℕ → Option Ref) (o : Option Ref)
    → n ≤ w
    → count_refs n (λ j. if j == w then o else cell j) ≡ count_refs n cell
count_refs_same zero w cell o h = refl
count_refs_same (suc n) w cell o h = ground (arith, count_refs_same n w cell o)

pub count_refs-written :
    {Ref : Type 0} (n w : ℕ) (cell : ℕ → Option Ref) (o : Option Ref)
    → w < n
    → count_refs n (λ j. if j == w then o else cell j) + count_ref (cell w)
      ≡ count_refs n cell + count_ref o
count_refs-written zero w cell o h = absurd (omega arith)
count_refs-written (suc n) w cell o h = elim (Bool-cases (n == w)) [
  | inl last ↦
      let here : n ≡ w = ground (arith, last) in
      let same = count_refs_same n w cell o (omega (arith, here)) in
      let at : count_ref (cell n) ≡ count_ref (cell w) = ap (λ j. count_ref (cell j)) here in
      rw last (omega (arith, same, at))
  | inr before ↦
      let below : w < n = ground (arith, before) in
      rw before (omega (arith, count_refs-written n w cell o below))
]

pub count_refs-none :
    {Ref : Type 0} (cell : ℕ → Option Ref) (n : ℕ)
    → ((j : ℕ) → j < n → cell j ≡ none)
    → count_refs n cell ≡ 0
count_refs-none cell zero empty = refl
count_refs-none cell (suc n) empty =
    rw (count_refs-none cell n (λ j h. empty j (omega (arith, h))), empty n (omega arith)) refl

pub create-IsBalanced :
    {Map : Type 0 → Type 0} {Ref : Type 0} {Iter : Type 0 → Type 0} (lib : WormholeLib Map Ref Iter)
    {V : Type 0} (wh : Map V) (worker_num : ℕ)
    → IsBalanced (create lib wh worker_num)
create-IsBalanced lib wh worker_num = record {
  refs = sym (count_refs-none _ worker_num (λ _ _. refl));
  iters = refl;
  kvs = refl;
}
