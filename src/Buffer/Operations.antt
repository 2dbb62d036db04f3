-- ===== src/Buffer/Operations.antt =====
-- src/kv/buffer.h: the constructors and the public operations of `BufferKV`. The overloads that take a
-- `threadinfo`, a query and a worker pass on to these.
use sidle_baselines.Base.{
  ℕ, zero, suc, ◌/◌, ◌^◌, Bool, true, not, Option, none, some, List, [], ◌∷◌, ◌++◌, ltb, leb, ◌==◌,
  if◌then◌else◌, length,
}
use sidle_baselines.Memory.{
  Run, done, fault, exits, out_of_bounds, bad_alloc, ◌>>=◌, ◌>>◌, check, Array, fresh, read, write,
  move, add_size, sub_size,
}
use sidle_baselines.Buffer.Defs.{
  BufferKv, Heap, Lock, uninitialised, readers, rdlock, wrlock, unlock, binary_search,
}

-- `result.push_back(keys[i])`, for the records left from the i-th; no lock is taken
unfoldable pub scan_loop : ℕ → Array ℕ → ℕ → List ℕ → Run (List ℕ)
scan_loop zero keys i result = done result
scan_loop (suc left) keys i result =
    read keys i >>= λ k. scan_loop left keys (add_size i 1) (result ++ k ∷ [])

module _ {V : Type 0} where
  -- `BufferKV()`, whose lock is made or the process ends
  unfoldable pub create : Heap V → Bool → Run (BufferKv V)
  create heap lock_made =
      if lock_made
      then done (record {
        record_n = 0;
        capacity_n = 1024;
        keys = fresh 0 1024;
        vals = fresh heap.blank 1024;
        lock = readers 0;
      })
      else fault exits

  -- `keys[i] = init_keys[i]; vals[i] = init_vals[i]`, for each key from the i-th
  unfoldable pub fill : List ℕ → List V → ℕ → Array ℕ → Array V → Run (Array ℕ × Array V)
  fill [] vs i keys vals = done (keys, vals)
  fill (k ∷ ks) [] i keys vals = fault out_of_bounds
  fill (k ∷ ks) (v ∷ vs) i keys vals =
      write keys i k >>= λ keys'. write vals i v >>= λ vals'. fill ks vs (add_size i 1) keys' vals'

  -- `BufferKV(init_keys, init_vals, capacity)`: the call that makes the lock is commented out
  unfoldable pub create_from : Heap V → List ℕ → List V → ℕ → Run (BufferKv V)
  create_from heap init_keys init_vals capacity = do
    let n = length init_keys
    let capacity_n = if ltb capacity n then n else capacity
    cells ← fill init_keys init_vals 0 (fresh 0 capacity_n) (fresh heap.blank capacity_n)
    done (record {
      record_n = n;
      capacity_n = capacity_n;
      keys = cells.0;
      vals = cells.1;
      lock = uninitialised;
    })

  unfoldable pub size : BufferKv V → ℕ
  size b = b.record_n

  unfoldable pub get_pos : BufferKv V → ℕ → Run ℕ
  get_pos b k = do found ← binary_search b k; check found.0; done found.1

  -- the value, if `match`, and the state
  unfoldable pub get : BufferKv V → ℕ → Run (Option V × BufferKv V)
  get b k = do
    held ← rdlock b.lock
    found ← binary_search b k
    v ← if found.0 then (read b.vals found.1 >>= λ v. done (some v)) else done none
    released ← unlock held
    done (v, record b { lock = released })

  -- `insert` and `insert_if_not_exst` where the arrays are full: new arrays of `capacity_n >> 2` cells.
  unfoldable pub add_record_full : Heap V → BufferKv V → ℕ → ℕ → V → Run (BufferKv V)
  add_record_full heap b pos k v = do
    let new_capacity = b.capacity_n / 2 ^ 2
    let rest = sub_size b.record_n pos
    keys₁ ← move (fresh 0 new_capacity) 0 b.keys 0 pos
    vals₁ ← move (fresh heap.blank new_capacity) 0 b.vals 0 pos
    keys₂ ← move keys₁ (add_size pos 1) b.keys pos rest
    vals₂ ← move vals₁ (add_size pos 1) b.vals pos rest
    keys₃ ← write keys₂ pos k
    vals₃ ← write vals₂ pos v
    done (record b {
      keys = keys₃;
      vals = vals₃;
      capacity_n = new_capacity;
      record_n = add_size b.record_n 1;
    })

  -- The same where there is room.
  unfoldable pub add_record_room : BufferKv V → ℕ → ℕ → V → Run (BufferKv V)
  add_record_room b pos k v = do
    let rest = sub_size b.record_n pos
    keys₁ ← move b.keys (add_size pos 1) b.keys pos rest
    vals₁ ← move b.vals (add_size pos 1) b.vals pos rest
    keys₂ ← write keys₁ pos k
    vals₂ ← write vals₁ pos v
    done (record b { keys = keys₂; vals = vals₂; record_n = add_size b.record_n 1 })

  -- The block of both inserts that stores a new record at `pos`. A `new` that fails throws, so that what the
  -- code does with a null pointer is never reached.
  unfoldable pub add_record : Heap V → BufferKv V → ℕ → ℕ → V → Run (BufferKv V)
  add_record heap b pos k v =
      if b.record_n == b.capacity_n
      then if not heap.keys_allocated
        then fault bad_alloc
        else if not heap.vals_allocated
        then fault bad_alloc
        else add_record_full heap b pos k v
      else add_record_room b pos k v

  -- the end of both inserts
  abbrev pub finish_insert : Bool → BufferKv V → Run (Bool × BufferKv V)
  finish_insert r c = unlock c.lock >>= λ released. done (r, record c { lock = released })

  unfoldable pub insert : Heap V → BufferKv V → ℕ → V → Run (Bool × BufferKv V)
  insert heap b₀ k v = do
    held ← wrlock b₀.lock
    let b = record b₀ { lock = held }
    check (leb b.record_n b.capacity_n)
    found ← binary_search b k
    check (leb found.1 b.capacity_n)
    stored ←
        if found.0
        then (write b.vals found.1 v >>= λ vals'. done (record b { vals = vals' }))
        else add_record heap b found.1 k v
    finish_insert true stored

  unfoldable pub insert_if_not_exst : Heap V → BufferKv V → ℕ → V → Run (Bool × BufferKv V)
  insert_if_not_exst heap b₀ k v = do
    held ← wrlock b₀.lock
    let b = record b₀ { lock = held }
    check (leb b.record_n b.capacity_n)
    found ← binary_search b k
    check (leb found.1 b.capacity_n)
    stored ← if found.0 then done b else add_record heap b found.1 k v
    finish_insert (not found.0) stored

  -- the block of `remove` that closes the gap at `pos`
  unfoldable pub drop_record : BufferKv V → ℕ → Run (BufferKv V)
  drop_record b pos = do
    let rest = sub_size (sub_size b.record_n pos) 1
    keys₁ ← move b.keys pos b.keys (add_size pos 1) rest
    vals₁ ← move b.vals pos b.vals (add_size pos 1) rest
    done (record b { keys = keys₁; vals = vals₁; record_n = sub_size b.record_n 1 })

  unfoldable pub remove : BufferKv V → ℕ → Run (Bool × BufferKv V)
  remove b₀ k = do
    held ← wrlock b₀.lock
    let b = record b₀ { lock = held }
    check (leb b.record_n b.capacity_n)
    found ← binary_search b k
    stored ← if found.0 then drop_record b found.1 else done b
    released ← unlock stored.lock
    done (found.0, record stored { lock = released })

  unfoldable pub scan_keys : BufferKv V → List ℕ → Run (Bool × List ℕ)
  scan_keys b result = scan_loop b.record_n b.keys 0 result >>= λ keys. done (true, keys)

  -- `~BufferKV`, where `rwlock_destroy` is what `pthread_rwlock_destroy` returns of a lock
  abbrev pub destroy : (Lock → ℕ) → BufferKv V → Run (Unit {0})
  destroy rwlock_destroy b = if rwlock_destroy b.lock == 0 then done tt else fault exits
