-- ===== src/Examples/BufferRuns.antt =====
-- src/kv/buffer.h on small buffers.
use sidle_baselines.Base.{
  ℕ, ◌+◌, ◌*◌, ◌≡◌, refl, Bool, true, false, not, ◌&&◌, Option, none, some, ◌==◌, if◌then◌else◌,
  arith,
}
use sidle_baselines.Memory.{Run, done, fault, out_of_bounds, read, write, move}
use sidle_baselines.Buffer.Defs.{BufferKv, Heap, readers, binary_search, linear_search, search_loop}
use sidle_baselines.Buffer.Operations.{
  get, insert, insert_if_not_exst, remove, add_record, add_record_room, drop_record,
}
use sidle_baselines.Buffer.Search.{IsValid}
use sidle_baselines.Buffer.Meaning.{meaning, rows_meaning}
use sidle_baselines.Buffer.Refinement.{
  has, get-meaning, insert-meaning, insert_if_not_exst-meaning, remove-meaning,
}
use sidle_baselines.Buffer.Failures.{insert_full-out_of_bounds}
use sidle_baselines.Buffer.Scans.{linear_search-binary_search}

-- rows 10 and 20, with the values 1 and 2
abbrev rows : ℕ → ℕ → BufferKv ℕ
rows capacity n = record {
  record_n = n;
  capacity_n = capacity;
  keys = record { size = capacity; cell = λ i. i * 10 + 10 };
  vals = record { size = capacity; cell = λ i. i + 1 };
  lock = readers 0;
}

abbrev roomy : BufferKv ℕ
roomy = rows 4 2

abbrev full : BufferKv ℕ
full = rows 2 2

abbrev heap : Heap ℕ
heap = record { keys_allocated = true; vals_allocated = true; blank = 0 }

abbrev no_heap : Heap ℕ
no_heap = record { keys_allocated = true; vals_allocated = false; blank = 0 }

roomy-IsValid : IsValid roomy
roomy-IsValid = record {
  fits = omega arith;
  keys_size = refl;
  vals_size = refl;
  small = omega arith;
  sorted = λ i j p q. omega arith;
  released = refl;
}

full-IsValid : IsValid full
full-IsValid = record {
  fits = omega arith;
  keys_size = refl;
  vals_size = refl;
  small = omega arith;
  sorted = λ i j p q. omega arith;
  released = refl;
}

get-meaning_example : get roomy 20 ≡ done (meaning roomy 20, roomy)
get-meaning_example = get-meaning roomy roomy-IsValid 20

insert-meaning_example :
    (c : BufferKv ℕ) × (insert heap roomy 15 7 ≡ done (true, c))
    × IsValid c
    × ((j : ℕ) → meaning c j ≡ (if j == 15 then some 7 else meaning roomy j))
insert-meaning_example = insert-meaning roomy roomy-IsValid 15 heap 7 (λ e. omega arith)

insert_if_not_exst-meaning_example :
    (c : BufferKv ℕ) × (insert_if_not_exst heap roomy 20 7 ≡ done (not (has (meaning roomy 20)), c))
    × IsValid c
    × ((j : ℕ)
        → meaning c j
          ≡ (if (j == 20) && not (has (meaning roomy 20)) then some 7 else meaning roomy j))
insert_if_not_exst-meaning_example =
    insert_if_not_exst-meaning roomy roomy-IsValid 20 heap 7 (λ e. omega arith)

remove-meaning_example :
    (c : BufferKv ℕ) × (remove roomy 10 ≡ done (has (meaning roomy 10), c))
    × IsValid c
    × ((j : ℕ) → meaning c j ≡ (if j == 10 then none else meaning roomy j))
remove-meaning_example = remove-meaning roomy roomy-IsValid 10

absent : meaning full 15 ≡ none
unfolding meaning rows_meaning
absent = refl

insert_full-out_of_bounds_example :
    (insert heap full 15 7 ≡ fault out_of_bounds)
    × (insert_if_not_exst heap full 15 7 ≡ fault out_of_bounds)
insert_full-out_of_bounds_example =
    insert_full-out_of_bounds full full-IsValid 15 7 absent refl heap refl refl

linear_search-binary_search_example :
    (hit : Bool) × (p : ℕ) × (q : ℕ) × (binary_search roomy 20 ≡ done (hit, p))
    × (linear_search roomy 20 ≡ done (hit, q))
    × (hit ≡ true → p ≡ q)
    × (hit ≡ false → q ≡ 2)
linear_search-binary_search_example = linear_search-binary_search roomy roomy-IsValid 20

-- what a key's row holds after an insert before it, and after its own removal
abbrev value_after : Run (Bool × BufferKv ℕ) → ℕ → Run (Option ℕ × BufferKv ℕ)
value_after r k = elim r [ done (_, b) ↦ get b k | fault e ↦ fault e ]

abbrev value_of : Run (Option ℕ × BufferKv ℕ) → Option ℕ
value_of (done (v, b)) = v
value_of (fault e) = none

insert_then_get : value_of (value_after (insert heap roomy 15 7) 20) ≡ some 2
unfolding insert get binary_search search_loop read write move add_record add_record_room
insert_then_get = refl

remove_then_get : value_of (value_after (remove roomy 10) 20) ≡ some 2
unfolding remove get binary_search search_loop read write move drop_record
remove_then_get = refl
