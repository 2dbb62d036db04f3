-- ===== src/Indexes/Smart.antt =====
-- src/kv/smart.h: `Smart`. The vendored SMART is a parameter.
use sidle_baselines.Base.{ℕ, zero, ◌≡◌, ◌≢◌, refl, Bool, true, false, Option, none, some, List}
use sidle_baselines.Keys.IntKey.{Key}
use sidle_baselines.Indexes.Value.{Value}

-- The calls of SMART's Tree.h, DSM.h and Key.h.
pub record SmartLib (Tree Dsm SmartKey : Type 0) : Type 0 where
  -- at `machineNR` and `threadNR`
  pub get_instance : ℕ → ℕ → Dsm
  pub register_thread : Dsm → Dsm
  pub new_tree : Dsm → Tree
  pub int2key : ℕ → SmartKey
  -- the last argument is what `value` is before, and the result has what it is after
  pub search : Tree → SmartKey → ℕ → Bool × ℕ
  pub insert : Tree → SmartKey → ℕ → Tree

-- A tree is a map. A search that finds nothing leaves the value as it is.
pub record IsMap {Tree Dsm SmartKey : Type 0} (lib : SmartLib Tree Dsm SmartKey) : Type 0 where
  pub find : Tree → SmartKey → Option ℕ
  pub search_found :
      (t : Tree) (s : SmartKey) (u v : ℕ) → find t s ≡ some v → lib.search t s u ≡ (true, v)
  pub search_absent :
      (t : Tree) (s : SmartKey) (u : ℕ) → find t s ≡ none → lib.search t s u ≡ (false, u)
  pub insert_same : (t : Tree) (s : SmartKey) (v : ℕ) → find (lib.insert t s v) s ≡ some v
  pub insert_other :
      (t : Tree) (s s' : SmartKey) (v : ℕ) → s ≢ s' → find (lib.insert t s v) s' ≡ find t s'

pub record SmartKv (Tree Dsm : Type 0) : Type 0 where
  pub tree : Tree
  pub dsm : Dsm

module _ {Tree Dsm SmartKey : Type 0} (lib : SmartLib Tree Dsm SmartKey) where
  unfoldable pub create : ℕ → SmartKv Tree Dsm
  create num_threads =
      let dsm' = lib.register_thread (lib.get_instance 1 num_threads) in
      record { tree = lib.new_tree dsm'; dsm = dsm' }

  unfoldable pub register_thread : SmartKv Tree Dsm → SmartKv Tree Dsm
  register_thread kv = record kv { dsm = lib.register_thread kv.dsm }

  -- the result and v, where `blank` is what the local `value` holds when nothing has set it
  unfoldable pub get : ℕ → SmartKv Tree Dsm → Key → Value → Bool × Value
  get blank kv k v =
      let found = lib.search kv.tree (lib.int2key k.key) blank in
      (found.0, record v { val = found.1 })

  unfoldable pub insert : SmartKv Tree Dsm → Key → Value → Bool × SmartKv Tree Dsm
  insert kv k v = (true, record kv { tree = lib.insert kv.tree (lib.int2key k.key) v.val })

-- `remove` returns false, and removes nothing.
abbrev pub remove : {Kv K : Type 0} → Kv → K → Bool × Kv
remove kv k = (false, kv)

module _ {Kv K V : Type 0} where
  -- `lower_bound` returns false, `scan` and `range_scan` zero, and nothing is changed.
  abbrev pub lower_bound : Kv → K → V → Bool × K × V
  lower_bound kv k v = (false, k, v)

  abbrev pub scan : Kv → K → ℕ → List (K × V) → ℕ × List (K × V)
  scan kv k_start n result = (zero, result)

  abbrev pub range_scan : Kv → K → K → List (K × V) → ℕ × List (K × V)
  range_scan kv k_start k_end result = (zero, result)

-- what `get` gives, where the map has the value or nothing
abbrev pub got : Option ℕ → ℕ → Value → Bool × Value
got none blank w = (false, record w { val = blank })
got (some v) blank w = (true, record w { val = v })

module _ {Tree Dsm SmartKey : Type 0} (lib : SmartLib Tree Dsm SmartKey) (map : IsMap lib) where
  get-found :
      (blank : ℕ) (kv : SmartKv Tree Dsm) (k : Key) (w : Value) (o : Option ℕ)
      → map.find kv.tree (lib.int2key k.key) ≡ o
      → get lib blank kv k w ≡ got o blank w
  unfolding get
  get-found blank kv k w none e = rw (map.search_absent kv.tree (lib.int2key k.key) blank e) refl
  get-found blank kv k w (some v) e =
      rw (map.search_found kv.tree (lib.int2key k.key) blank v e) refl

  -- On a tree that is a map, `Smart::insert` returns true. In the tree that it leaves, `get` finds the
  -- value at the key. At every key of another SMART key it finds what the map had there before. Where that
  -- is nothing, it returns false, and v is overwritten by what its local variable happened to hold.
  pub insert-search :
      (kv : SmartKv Tree Dsm) (k : Key) (v w : Value) (blank : ℕ)
      → (kv' : SmartKv Tree Dsm) × (insert lib kv k v ≡ (true, kv'))
        × (get lib blank kv' k w ≡ (true, record w { val = v.val }))
        × ((j : Key)
            → lib.int2key k.key ≢ lib.int2key j.key
            → get lib blank kv' j w ≡ got (map.find kv.tree (lib.int2key j.key)) blank w)
  unfolding insert
  insert-search kv k v w blank =
      let at = lib.int2key k.key in
      let kv' : SmartKv Tree Dsm = record kv { tree = lib.insert kv.tree at v.val } in
      (
        kv',
        refl,
        get-found blank kv' k w (some v.val) (map.insert_same kv.tree at v.val),
        λ j apart.
            get-found blank kv' j w (map.find kv.tree (lib.int2key j.key))
              (map.insert_other kv.tree at (lib.int2key j.key) v.val apart),
      )
