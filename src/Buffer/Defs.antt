-- ===== src/Buffer/Defs.antt =====
-- src/kv/buffer.h: the state of `BufferKV`, its lock, its searches and its operations.
use sidle_baselines.Base.{
  ℕ, zero, suc, ◌/◌, Bool, true, false, not, ◌&&◌, ◌||◌, Option, none, some, ltb, ◌==◌,
  if◌then◌else◌,
}
use sidle_baselines.Memory.{
  Run, done, fault, lock_uninitialised, lock_blocked, lock_not_held, out_of_fuel, ◌>>=◌, ◌>>◌,
  check, Array, read, add_size,
}

-- pthread_rwlock_t: memory that was never initialised, held by n readers (free at 0), or by a writer. No
-- operation takes the lock while it holds it, so that a call that meets a held lock is another thread's, and
-- waits.
pub data Lock : Type 0 where
  uninitialised : Lock
  readers : ℕ → Lock
  writer : Lock

pub record BufferKv (V : Type 0) : Type 0 where
  pub record_n : ℕ
  pub capacity_n : ℕ
  pub keys : Array ℕ
  pub vals : Array V
  pub lock : Lock

-- What `new` does in one call: whether there is memory for each of the two arrays, without which it throws,
-- and what a cell of the second holds. A cell of the first holds `Key()`, which is 0.
pub record Heap (V : Type 0) : Type 0 where
  pub keys_allocated : Bool
  pub vals_allocated : Bool
  pub blank : V

abbrev pub rdlock : Lock → Run Lock
rdlock uninitialised = fault lock_uninitialised
rdlock (readers n) = done (readers (suc n))
rdlock writer = fault lock_blocked

abbrev pub wrlock : Lock → Run Lock
wrlock uninitialised = fault lock_uninitialised
wrlock (readers zero) = done writer
wrlock (readers (suc n)) = fault lock_blocked
wrlock writer = fault lock_blocked

abbrev pub unlock : Lock → Run Lock
unlock uninitialised = fault lock_uninitialised
unlock (readers zero) = fault lock_not_held
unlock (readers (suc n)) = done (readers n)
unlock writer = done (readers 0)

-- The rounds of `binary_search`, on its `search_begin`, `search_end` and `mid`.
unfoldable pub search_loop : ℕ → Array ℕ → ℕ → ℕ → ℕ → ℕ → Run (ℕ × ℕ × ℕ)
search_loop zero keys k search_begin search_end mid = fault out_of_fuel
search_loop (suc fuel) keys k search_begin search_end mid = elim (ltb search_begin search_end) [
  | false ↦ done (search_begin, search_end, mid)
  | true ↦ elim (read keys mid) [
    | fault e ↦ fault e
    | done key ↦
        let lo = if ltb key k then add_size mid 1 else search_begin in
        let hi = if ltb key k then search_end else mid in
        search_loop fuel keys k lo hi (add_size lo hi / 2)
  ]
]

unfoldable pub linear_loop : ℕ → Array ℕ → ℕ → ℕ → Run (Option ℕ)
linear_loop zero keys k i = done none
linear_loop (suc left) keys k i = elim (read keys i) [
  | fault e ↦ fault e
  | done key ↦ elim (k == key) [
    | true ↦ done (some i)
    | false ↦ linear_loop left keys k (add_size i 1)
  ]
]

module _ {V : Type 0} where
  -- `match`, and `pos`
  unfoldable pub binary_search : BufferKv V → ℕ → Run (Bool × ℕ)
  binary_search b k = do
    found ← search_loop (suc b.record_n) b.keys k 0 b.record_n (b.record_n / 2)
    let (search_begin, search_end, mid) = found
    check (search_begin == search_end)
    check (search_begin == mid)
    hit ← if ltb mid b.record_n then (read b.keys mid >>= λ key. done (key == k)) else done false
    check (not hit || hit && ltb mid b.record_n)
    done (hit, mid)

  unfoldable pub linear_search : BufferKv V → ℕ → Run (Bool × ℕ)
  linear_search b k = do
    found ← linear_loop b.record_n b.keys k 0
    done (elim found [ none ↦ (false, b.record_n) | some i ↦ (true, i) ])
