-- ===== src/Buffer/Refinement.antt =====
-- src/kv/buffer.h: the operations on a valid buffer against those of a finite map.
use sidle_baselines.Base.{
  ℕ, ◌<◌, ◌≡◌, ◌≢◌, refl, ◌∙◌, inl, inr, Bool, true, false, not, Option, none, some, ◌&&◌, ltb,
  ◌==◌, if◌then◌else◌, arith, Bool-cases, Option-cases,
}
use sidle_baselines.Memory.{done, written, read_lem, write_lem}
use sidle_baselines.Buffer.Defs.{BufferKv, Heap, Lock, readers, writer, binary_search}
use sidle_baselines.Buffer.Operations.{get, insert, insert_if_not_exst, remove, add_record}
use sidle_baselines.Buffer.Search.{IsPlace, IsValid, binary_search-IsPlace}
use sidle_baselines.Buffer.Rows.{HasRows, IsPlace-of, add_record_room_lem}
use sidle_baselines.Buffer.Dropped.{drop_record_lem}
use sidle_baselines.Buffer.Meaning.{rows_meaning, meaning, rows_meaning_found, rows_meaning-IsPlace}

-- the buffer while a call writes
abbrev pub locked : {V : Type 0} → BufferKv V → BufferKv V
locked b = record b { lock = writer }

abbrev pub has : {V : Type 0} → Option V → Bool
has none = false
has (some v) = true

module _ {V : Type 0} (b : BufferKv V) (valid : IsValid b) where
  locked-HasRows : HasRows (locked b)
  locked-HasRows = record {
    fits = valid.fits;
    keys_size = valid.keys_size;
    vals_size = valid.vals_size;
    small = valid.small;
    sorted = valid.sorted;
  }

  released-IsValid : (c : BufferKv V) → HasRows c → IsValid (record c { lock = readers 0 })
  released-IsValid c rows = record {
    fits = rows.fits;
    keys_size = rows.keys_size;
    vals_size = rows.vals_size;
    small = rows.small;
    sorted = rows.sorted;
    released = refl;
  }

  module _ (k : ℕ) where
    -- What the search finds under any lock, and what that tells of the map.
    pub search_lem :
        (l : Lock)
        → (p : ℕ) × (binary_search (record b { lock = l }) k
            ≡ done (ltb p b.record_n && (b.keys.cell p == k), p))
          × IsPlace b.keys b.record_n k p
          × (meaning b k
              ≡ (if ltb p b.record_n && (b.keys.cell p == k) then some (b.vals.cell p) else none))
    unfolding meaning
    search_lem l =
        let (p, e, place) =
          binary_search-IsPlace (record b { lock = l }) k
            (omega (arith, valid.fits, valid.keys_size)) (omega (arith, valid.fits, valid.small))
            valid.sorted in
        (p, e, place, rows_meaning-IsPlace b.keys b.vals b.record_n k p valid.sorted place)

    -- On a valid buffer `get` returns the map's value, and leaves the buffer as it was.
    pub get-meaning : get b k ≡ done (meaning b k, b)
    unfolding get
    get-meaning =
        let (p, e, place, m) = search_lem b.lock in
        rw m (ground (arith, valid.released, e, valid.fits, valid.vals_size, read_lem b.vals p))

    -- the rows with the value of one of them set
    set_row-meaning :
        (p : ℕ) (v : V)
        → p < b.record_n
        → b.keys.cell p ≡ k
        → (j : ℕ)
        → rows_meaning b.keys (written b.vals p v) b.record_n j
          ≡ (if j == k then some v else rows_meaning b.keys b.vals b.record_n j)
    set_row-meaning p v h e j = elim (Bool-cases (j == k)) [
      | inl same ↦
          rw same
            (rows_meaning_found _ _ b.record_n p j valid.sorted h (ground arith) ∙ ground arith)
      | inr other ↦
          let (q, at) = IsPlace-of (locked b) locked-HasRows j in
          rw
            (
              other,
              rows_meaning-IsPlace b.keys b.vals b.record_n j q valid.sorted at,
              rows_meaning-IsPlace b.keys (written b.vals p v) b.record_n j q valid.sorted at,
            )
            (ground arith)
    ]

    -- A key that is there has its value replaced.
    insert_present :
        (heap : Heap V) (v : V)
        → meaning b k ≢ none
        → (c : BufferKv V) × (insert heap b k v ≡ done (true, c))
          × IsValid c
          × ((j : ℕ) → meaning c j ≡ (if j == k then some v else meaning b j))
    unfolding insert meaning
    insert_present heap v here =
        let (p, e, place, m) = search_lem writer in
        let inside : p < b.record_n = ground (arith, m) in
        let at_p : b.keys.cell p ≡ k = ground (arith, m) in
        (
          record b { vals = written b.vals p v },
          ground (
            arith,
            e,
            m,
            valid.released,
            valid.fits,
            valid.vals_size,
            write_lem b.vals p v,
            place.inside,
          ),
          record {
            fits = valid.fits;
            keys_size = valid.keys_size;
            vals_size = valid.vals_size;
            small = valid.small;
            sorted = valid.sorted;
            released = valid.released;
          },
          set_row-meaning p v inside at_p,
        )

    -- A new key gets a row, where there is room for it.
    insert_absent :
        (heap : Heap V) (v : V)
        → meaning b k ≡ none
        → b.record_n < b.capacity_n
        → (c : BufferKv V) × (insert heap b k v ≡ done (true, c))
          × IsValid c
          × ((j : ℕ) → meaning c j ≡ (if j == k then some v else meaning b j))
    unfolding insert meaning add_record
    insert_absent heap v new room =
        let (p, e, place, m) = search_lem writer in
        let miss : (ltb p b.record_n && (b.keys.cell p == k)) ≡ false = ground (arith, m) in
        let (c, stored, rows, lock, cap, map) =
          add_record_room_lem (locked b) locked-HasRows k p v place miss (omega arith) in
        (
          record c { lock = readers 0 },
          ground (arith, e, miss, valid.released, valid.fits, place.inside, stored, lock),
          released-IsValid c rows,
          map,
        )

    -- On a valid buffer with a free cell, or with the key in it already, `insert` returns true. The
    -- buffer that it leaves is valid, and its map is the old one with the key set to the value.
    pub insert-meaning :
        (heap : Heap V) (v : V)
        → (meaning b k ≡ none → b.record_n < b.capacity_n)
        → (c : BufferKv V) × (insert heap b k v ≡ done (true, c))
          × IsValid c
          × ((j : ℕ) → meaning c j ≡ (if j == k then some v else meaning b j))
    insert-meaning heap v room = elim (Option-cases (meaning b k)) [
      | inl new ↦ insert_absent heap v new (room new)
      | inr (w, old) ↦ insert_present heap v (λ e. cc)
    ]

    -- On a valid buffer with a free cell, or with the key in it already, `insert_if_not_exst` returns
    -- whether the key was absent. The buffer that it leaves is valid, and its map is the old one, with
    -- the key set to the value if it was absent.
    pub insert_if_not_exst-meaning :
        (heap : Heap V) (v : V)
        → (meaning b k ≡ none → b.record_n < b.capacity_n)
        → (c : BufferKv V) × (insert_if_not_exst heap b k v ≡ done (not (has (meaning b k)), c))
          × IsValid c
          × ((j : ℕ)
              → meaning c j ≡ (if (j == k) && not (has (meaning b k)) then some v else meaning b j))
    unfolding insert_if_not_exst meaning add_record
    insert_if_not_exst-meaning heap v room =
        let (p, e, place, m) = search_lem writer in
        elim (Bool-cases (ltb p b.record_n && (b.keys.cell p == k))) [
          | inl hit ↦
              let old : meaning b k ≡ some (b.vals.cell p) = ground (arith, m) in
              (
                b,
                ground (arith, e, hit, old, valid.released, valid.fits, place.inside),
                valid,
                λ j. ground (arith, old),
              )
          | inr miss ↦
              let new : meaning b k ≡ none = ground (arith, m) in
              let (c, stored, rows, lock, cap, map) =
                add_record_room_lem (locked b) locked-HasRows k p v place miss
                  (omega (arith, room new)) in
              (
                record c { lock = readers 0 },
                ground (
                  arith,
                  e,
                  miss,
                  new,
                  room new,
                  valid.released,
                  valid.fits,
                  place.inside,
                  stored,
                  lock,
                ),
                released-IsValid c rows,
                λ j. ground (arith, map j, new),
              )
        ]

    -- On a valid buffer `remove` returns whether the key was there. The buffer that it leaves is
    -- valid, and its map is the old one without the key.
    pub remove-meaning :
        (c : BufferKv V) × (remove b k ≡ done (has (meaning b k), c))
        × IsValid c
        × ((j : ℕ) → meaning c j ≡ (if j == k then none else meaning b j))
    unfolding remove meaning
    remove-meaning =
        let (p, e, place, m) = search_lem writer in
        elim (Bool-cases (ltb p b.record_n && (b.keys.cell p == k))) [
          | inl hit ↦
              let old : meaning b k ≡ some (b.vals.cell p) = ground (arith, m) in
              let (c, dropped, rows, lock, cap, map) =
                drop_record_lem (locked b) locked-HasRows k p (ground arith) (ground arith) in
              (
                record c { lock = readers 0 },
                ground (arith, e, hit, old, valid.released, valid.fits, dropped, lock),
                released-IsValid c rows,
                map,
              )
          | inr miss ↦
              let new : meaning b k ≡ none = ground (arith, m) in
              (
                b,
                ground (arith, e, miss, new, valid.released, valid.fits),
                valid,
                λ j. ground (arith, new),
              )
        ]
