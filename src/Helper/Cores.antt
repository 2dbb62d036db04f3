-- ===== src/Helper/Cores.antt =====
-- src/helper.cpp: `bind_to_physical_cores`, compiled without BIND_NUMA1, and its reverse.
use sidle_baselines.Base.{
  ℕ, zero, suc, ◌+◌, ◌≤◌, ◌<◌, ◌≡◌, ◌≢◌, refl, ap, ◌∙◌, sym, Bool, true, false, ◌&&◌, none, some,
  List, [], ◌∷◌, get_elem?, ltb, ◌==◌, ==_iff, ltb→lt, if◌then◌else◌, ℤ, pos, negsuc, arith,
}
use sidle_baselines.Memory.{Run, done, fault, exits, out_of_bounds, ◌>>=◌, ◌>>◌}

abbrev pub physical_core_n : ℕ
physical_core_n = 55

abbrev pub mapping : List ℕ
mapping =
    0 ∷ 2 ∷ 4 ∷ 6 ∷ 8 ∷ 10 ∷ 12 ∷ 14 ∷ 16 ∷ 18 ∷ 20 ∷ 22 ∷ 1 ∷ 3 ∷ 5 ∷ 7 ∷ 9 ∷ 11 ∷ 13 ∷ 15 ∷ 17
    ∷ 19 ∷ 21 ∷ 23 ∷ 24 ∷ 26 ∷ 28 ∷ 30 ∷ 32 ∷ 34 ∷ 36 ∷ 38 ∷ 40 ∷ 42 ∷ 44 ∷ 46 ∷ 25 ∷ 27 ∷ 29 ∷ 31
    ∷ 33 ∷ 35 ∷ 37 ∷ 39 ∷ 41 ∷ 43 ∷ 45 ∷ 47 ∷ 96 ∷ 98 ∷ 100 ∷ 102 ∷ 104 ∷ 106 ∷ 108 ∷ []

-- `INVARIANT(c)` of src/helper.h, which ends the process
abbrev pub invariant : Bool → Run (Unit {0})
invariant true = done tt
invariant false = fault exits

-- `t_id < n`
abbrev pub int_below : ℤ → ℕ → Bool
int_below (pos i) n = ltb i n
int_below (negsuc i) n = true

-- `mapping[t_id]`: nothing keeps a negative number from being the index
unfoldable pub core_of : ℤ → Run ℕ
core_of (pos i) = elim (get_elem? mapping i) [ none ↦ fault out_of_bounds | some y ↦ done y ]
core_of (negsuc i) = fault out_of_bounds

-- what it returns, and the one core of the mask that `sched_setaffinity` is given
unfoldable pub bind_to_physical_cores : ℤ → Run (ℕ × ℕ)
unfolding core_of
bind_to_physical_cores t_id = do
  invariant (int_below t_id physical_core_n)
  y ← core_of t_id
  done (0, y)

-- either the invariant or the exit after it ends the process
unfoldable pub bind_to_physical_cores_reverse : ℤ → Run (ℕ × ℕ)
bind_to_physical_cores_reverse t_id = do invariant (int_below t_id 24); fault exits

-- the place of a number in a list
place : ℕ → List ℕ → ℕ
place y [] = 0
place y (x ∷ xs) = if x == y then 0 else 1 + place y xs

core : ℕ → ℕ
core i = elim (get_elem? mapping i) [ none ↦ 0 | some y ↦ y ]

abbrev all_below : ℕ → (ℕ → Bool) → Bool
all_below zero p = true
all_below (suc n) p = p n && all_below n p

all_below_lem : (n : ℕ) (p : ℕ → Bool) (i : ℕ) → all_below n p ≡ true → i < n → p i ≡ true
all_below_lem zero p i h small = absurd (omega arith)
all_below_lem (suc n) p i h small = ground (arith, all_below_lem n p i)

same_run : Run (ℕ × ℕ) → ℕ → Bool
same_run (done (r, y)) i = (r == 0) && (y == core i) && ltb y 128 && (place y mapping == i)
same_run (fault e) i = false

bound : ℕ → Bool
bound i = same_run (bind_to_physical_cores (pos i)) i

table : all_below 55 bound ≡ true
unfolding bound same_run bind_to_physical_cores core_of core place
table = refl

four_tests :
    (a b c d : Bool) → a && b && c && d ≡ true → (a ≡ true) × (b ≡ true) × (c ≡ true) × (d ≡ true)
four_tests true true true true h = (refl, refl, refl, refl)
four_tests true true true false h = absurd cc
four_tests true true false d h = absurd cc
four_tests true false c d h = absurd cc
four_tests false b c d h = absurd cc

same_run-done :
    (m : Run (ℕ × ℕ)) (i : ℕ)
    → same_run m i ≡ true
    → (m ≡ done (0, core i)) × (core i < 128) × (place (core i) mapping ≡ i)
unfolding same_run
same_run-done (done (r, y)) i h =
    let (none_set, here, low, back) = four_tests _ _ _ _ h in
    let zero_set = (==_iff r 0).0 none_set in
    let at = (==_iff y (core i)).0 here in
    (
      rw (zero_set, at) refl,
      rw (← at) (ltb→lt y 128 low),
      rw (← at) ((==_iff (place y mapping) i).0 back),
    )
same_run-done (fault e) i h = absurd cc

-- The threads below 55 are bound: the call returns 0, to a core below 128, and to another core for another thread.
pub bind_to_physical_cores-distinct :
    (i j : ℕ)
    → i < physical_core_n
    → j < physical_core_n
    → i ≢ j
    → (x y : ℕ) × (bind_to_physical_cores (pos i) ≡ done (0, x))
      × (bind_to_physical_cores (pos j) ≡ done (0, y))
      × (x < 128)
      × (x ≢ y)
unfolding bound
bind_to_physical_cores-distinct i j hi hj apart =
    let (first, low, back) = same_run-done _ i (all_below_lem 55 bound i table hi) in
    let (second, low', back') = same_run-done _ j (all_below_lem 55 bound j table hj) in
    (
      core i,
      core j,
      first,
      second,
      low,
      λ same. apart (sym back ∙ ap (λ y. place y mapping) same ∙ back'),
    )

-- For a thread from 55 on `bind_to_physical_cores` ends the process. For a negative one it reads outside
-- its table. `bind_to_physical_cores_reverse` ends the process for every thread.
pub bind_to_physical_cores-faults :
    (n : ℕ) (t_id : ℤ)
    → (physical_core_n ≤ n → bind_to_physical_cores (pos n) ≡ fault exits)
      × (bind_to_physical_cores (negsuc n) ≡ fault out_of_bounds)
      × (bind_to_physical_cores_reverse t_id ≡ fault exits)
unfolding bind_to_physical_cores core_of bind_to_physical_cores_reverse
bind_to_physical_cores-faults n t_id = (
  λ high. let test : ltb n 55 ≡ false = ground arith in rw test refl,
  refl,
  either (int_below t_id 24) (fault exits) refl,
)
  where
    either : (b : Bool) (e : Run (ℕ × ℕ)) → e ≡ fault exits → (invariant b >> e) ≡ fault exits
    either true e h = h
    either false e h = refl
