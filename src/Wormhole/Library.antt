-- ===== src/Wormhole/Library.antt =====
-- The vendored Wormhole, as far as src/kv/wormhole.h calls it: a parameter, and what is relied on of it.
use sidle_baselines.Base.{ℕ, ◌≡◌, ◌≢◌, Bool, true, false, Option, none, some, List, [], ◌∷◌}
use sidle_baselines.Keys.StoredRows.{rows_from}

-- The calls of wh.h, on maps of values of each type. A key is a string of bytes.
pub record WormholeLib (Map : Type 0 → Type 0) (Ref : Type 0) (Iter : Type 0 → Type 0)
    : Type 1 where
  -- none is NULL
  pub wormhole_ref : {V : Type 0} → Map V → Option Ref × Map V
  pub wormhole_unref : {V : Type 0} → Ref → Map V → Map V
  -- the value of the copy that is allocated, or NULL
  pub wormhole_get : {V : Type 0} → Ref → Map V → List ℕ → Option V
  pub wormhole_put : {V : Type 0} → Ref → Map V → List ℕ → V → Bool × Map V
  pub wormhole_del : {V : Type 0} → Ref → Map V → List ℕ → Bool × Map V
  -- `wormhole_iter_create` and `wormhole_iter_seek`
  pub iter_create : {V : Type 0} → Ref → Map V → Iter V
  pub iter_seek : {V : Type 0} → Iter V → List ℕ → Iter V
  -- the key and the value of the copy that is allocated, or NULL
  pub iter_next : {V : Type 0} → Iter V → Option (List ℕ × V) × Iter V

module _ {Map : Type 0 → Type 0} {Ref : Type 0} {Iter : Type 0 → Type 0}
    (lib : WormholeLib Map Ref Iter) where
  -- Through every reference the library is one map from byte strings to values. A put that returns false
  -- has stored nothing. References come and go without changing the map.
  pub record IsMap : Type 1 where
    pub find : {V : Type 0} → Map V → List ℕ → Option V
    pub get_find :
        {V : Type 0} (r : Ref) (map : Map V) (s : List ℕ) → lib.wormhole_get r map s ≡ find map s
    pub put_same :
        {V : Type 0} (r : Ref) (map : Map V) (s : List ℕ) (v : V)
        → (lib.wormhole_put r map s v).0 ≡ true
        → find (lib.wormhole_put r map s v).1 s ≡ some v
    pub put_other :
        {V : Type 0} (r : Ref) (map : Map V) (s s' : List ℕ) (v : V)
        → s ≢ s'
        → find (lib.wormhole_put r map s v).1 s' ≡ find map s'
    pub put_refused :
        {V : Type 0} (r : Ref) (map : Map V) (s s' : List ℕ) (v : V)
        → (lib.wormhole_put r map s v).0 ≡ false
        → find (lib.wormhole_put r map s v).1 s' ≡ find map s'
    pub del_same :
        {V : Type 0} (r : Ref) (map : Map V) (s : List ℕ)
        → find (lib.wormhole_del r map s).1 s ≡ none
    pub del_other :
        {V : Type 0} (r : Ref) (map : Map V) (s s' : List ℕ)
        → s ≢ s'
        → find (lib.wormhole_del r map s).1 s' ≡ find map s'

  -- A map has its rows in ascending order. An iterator that seeks a key has left the rows from there on,
  -- and gives them one by one.
  pub record IsIterator : Type 1 where
    pub rows : {V : Type 0} → Map V → List (List ℕ × V)
    pub remaining : {V : Type 0} → Iter V → List (List ℕ × V)
    pub seek_rows :
        {V : Type 0} (r : Ref) (map : Map V) (s : List ℕ)
        → remaining (lib.iter_seek (lib.iter_create r map) s) ≡ rows_from s (rows map)
    pub next_nil : {V : Type 0} (it : Iter V) → remaining it ≡ [] → (lib.iter_next it).0 ≡ none
    pub next_cons :
        {V : Type 0} (it : Iter V) (row : List ℕ × V) (rest : List (List ℕ × V))
        → remaining it ≡ row ∷ rest
        → ((lib.iter_next it).0 ≡ some row) × (remaining (lib.iter_next it).1 ≡ rest)
