-- ===== src/Workload/Index.antt =====
-- The interface that the wrappers of src/kv have in common, as the drivers under benchmark use it: get,
-- insert and remove by a worker, and the abstract map that an index stands for.
use sidle_baselines.Base.{
  ℕ, ◌≡◌, refl, ap, ◌∙◌, fun_ext, Bool, true, Option, none, some, List, [], ◌∷◌,
}
use sidle_baselines.Memory.{Run, done, ◌>>=◌}
use sidle_baselines.Bytes.Equality.{updated}

pub data Op (K V : Type 0) : Type 0 where
  get_op : K → Op K V
  insert_op : K → V → Op K V
  remove_op : K → Op K V

-- what a call returns
pub data Reply (V : Type 0) : Type 0 where
  got : Option V → Reply V
  said : Bool → Reply V

pub record Index (S K V : Type 0) : Type 0 where
  pub get : S → K → ℕ → Run (Option V × S)
  pub insert : S → K → V → ℕ → Run (Bool × S)
  pub remove : S → K → ℕ → Run (Bool × S)

module _ {S K V : Type 0} (index : Index S K V) where
  -- one call, by a worker
  abbrev pub call : ℕ → Op K V → S → Run (Reply V × S)
  call w (get_op k) s = index.get s k w >>= λ r. done (got r.0, r.1)
  call w (insert_op k v) s = index.insert s k v w >>= λ r. done (said r.0, r.1)
  call w (remove_op k) s = index.remove s k w >>= λ r. done (said r.0, r.1)

  -- the calls of the workers, in the order in which they take effect
  unfoldable pub run : List (ℕ × Op K V) → S → Run (List (Reply V) × S)
  run [] s = done ([], s)
  run ((w, op) ∷ ops) s = call w op s >>= λ r. run ops r.1 >>= λ rest. done (r.0 ∷ rest.0, rest.1)

-- maps from the bytes of a key to values
abbrev pub ByteMap : Type 0 → Type 0
ByteMap V = List ℕ → Option V

module _ {K V : Type 0} (stored : K → List ℕ) where
  abbrev pub reply : Op K V → ByteMap V → Reply V
  reply (get_op k) m = got (m (stored k))
  reply (insert_op k v) m = said true
  reply (remove_op k) m = said true

  abbrev pub after : Op K V → ByteMap V → ByteMap V
  after (get_op k) m = m
  after (insert_op k v) m = updated m (stored k) (some v)
  after (remove_op k) m = updated m (stored k) none

  -- the replies of a map
  abbrev pub replies : List (ℕ × Op K V) → ByteMap V → List (Reply V)
  replies [] m = []
  replies ((w, op) ∷ ops) m = reply op m ∷ replies ops (after op m)

  -- the map that is left
  abbrev pub after_all : List (ℕ × Op K V) → ByteMap V → ByteMap V
  after_all [] m = m
  after_all ((w, op) ∷ ops) m = after_all ops (after op m)

-- The calls are those of workers of which the index knows.
abbrev pub AllWorkers : {K V : Type 0} → (ℕ → Type 0) → List (ℕ × Op K V) → Type 0
AllWorkers P [] = Unit
AllWorkers P ((w, op) ∷ ops) = P w × AllWorkers P ops

-- What an index promises: in its good states, to the workers of which it knows, it is a map.
pub record IsIndex {S K V : Type 0} (index : Index S K V) (stored : K → List ℕ) : Type 1 where
  pub Good : S → Type 0
  pub Worker : ℕ → Type 0
  pub find : S → ByteMap V
  pub get_find :
      (s : S) (k : K) (w : ℕ) → Good s → Worker w → index.get s k w ≡ done (find s (stored k), s)
  pub insert_find :
      (s : S) (k : K) (v : V) (w : ℕ)
      → Good s
      → Worker w
      → (s' : S) × (index.insert s k v w ≡ done (true, s'))
        × Good s'
        × ((b : List ℕ) → find s' b ≡ updated (find s) (stored k) (some v) b)
  pub remove_find :
      (s : S) (k : K) (w : ℕ)
      → Good s
      → Worker w
      → (s' : S) × (index.remove s k w ≡ done (true, s'))
        × Good s'
        × ((b : List ℕ) → find s' b ≡ updated (find s) (stored k) none b)

module _ {S K V : Type 0} (index : Index S K V) (stored : K → List ℕ)
    (law : IsIndex index stored) where
  call-reply :
      (w : ℕ) (op : Op K V) (s : S)
      → law.Good s
      → law.Worker w
      → (s' : S) × (call index w op s ≡ done (reply stored op (law.find s), s'))
        × law.Good s'
        × (law.find s' ≡ after stored op (law.find s))
  call-reply w (get_op k) s good known = (s, rw (law.get_find s k w good known) refl, good, refl)
  call-reply w (insert_op k v) s good known =
      let (s', e, good', found) = law.insert_find s k v w good known in
      (s', rw e refl, good', fun_ext found)
  call-reply w (remove_op k) s good known =
      let (s', e, good', found) = law.remove_find s k w good known in
      (s', rw e refl, good', fun_ext found)

  -- An index that keeps its promises, in a good state, gives every list of calls by workers that it knows
  -- the replies of the map that it stands for, and then stands for the map that these calls leave.
  pub run-replies :
      (ops : List (ℕ × Op K V)) (s : S)
      → law.Good s
      → AllWorkers law.Worker ops
      → (s' : S) × (run index ops s ≡ done (replies stored ops (law.find s), s'))
        × law.Good s'
        × (law.find s' ≡ after_all stored ops (law.find s))
  unfolding run
  run-replies [] s good known = (s, refl, good, refl)
  run-replies ((w, op) ∷ ops) s good (known, rest) =
      let (s₁, first, good₁, found₁) = call-reply w op s good known in
      let (s₂, later, good₂, found₂) = run-replies ops s₁ good₁ rest in
      (
        s₂,
        rw first (
            rw later
              (ap (λ m. done (reply stored op (law.find s) ∷ replies stored ops m, s₂)) found₁)),
        good₂,
        found₂ ∙ ap (after_all stored ops) found₁,
      )
