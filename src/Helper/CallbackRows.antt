-- ===== src/Helper/CallbackRows.antt =====
-- src/helper.h: the rows that `RangeScanCallback` has collected when a scan is over.
use Prim.Native.Nat.{Ordering}
use sidle_baselines.Base.{
  ℕ, ◌≡◌, ◌≢◌, refl, ap, ◌∙◌, sym, Bool, true, false, List, [], ◌∷◌, ◌++◌, length, if◌then◌else◌,
  Bool-cases, inl, inr, arith,
}
use mathlib.Core.List.{append_assoc, append-nil}
use sidle_baselines.Memory.{done}
use sidle_baselines.Bytes.{memcmp}
use sidle_baselines.Keys.Stored.{StoredKey}
use sidle_baselines.Helper.Callback.{
  RowLib, RangeScanCallback, make_callback, is_single, first_column, call, feed,
}

-- Strings of as many bytes are in order.
memcmp-below :
    (xs ys zs : List ℕ)
    → length xs ≡ length ys
    → length ys ≡ length zs
    → memcmp xs ys ≡ Ordering.lt
    → memcmp ys zs ≡ Ordering.lt
    → memcmp xs zs ≡ Ordering.lt
unfolding memcmp
memcmp-below [] ys zs e f h k = absurd cc
memcmp-below (x ∷ xs) [] zs e f h k = absurd cc
memcmp-below (x ∷ xs) (y ∷ ys) [] e f h k = absurd cc
memcmp-below (x ∷ xs) (y ∷ ys) (z ∷ zs) e f h k =
    ground (arith, memcmp-below xs ys zs (omega (arith, e)) (omega (arith, f)), h, k)

abbrev pub is_lt : Ordering → Bool
is_lt Ordering.lt = true
is_lt Ordering.eq = false
is_lt Ordering.gt = false

abbrev pub IsAbove : {Row : Type 0} → List ℕ → List (List ℕ × Row) → Type 0
IsAbove s [] = Unit
IsAbove s ((s', row) ∷ rows) = memcmp s s' ≡ Ordering.lt

-- keys of n bytes, each below the next
abbrev pub IsAscending : {Row : Type 0} → ℕ → List (List ℕ × Row) → Type 0
IsAscending n [] = Unit
IsAscending n ((s, row) ∷ rows) = (length s ≡ n) × IsAbove s rows × IsAscending n rows

-- The rows below a key, wherever they stand.
abbrev pub rows_below : {Row : Type 0} → List ℕ → List (List ℕ × Row) → List (List ℕ × Row)
rows_below end [] = []
rows_below end ((s, row) ∷ rows) =
    let rest = rows_below end rows in if is_lt (memcmp s end) then (s, row) ∷ rest else rest

is_lt-lt : (o : Ordering) → is_lt o ≡ true → o ≡ Ordering.lt
is_lt-lt Ordering.lt h = refl
is_lt-lt Ordering.eq h = absurd cc
is_lt-lt Ordering.gt h = absurd cc

above_rest :
    {Row : Type 0} (n : ℕ) (end s : List ℕ) (rows : List (List ℕ × Row))
    → length s ≡ n
    → length end ≡ n
    → IsAbove s rows
    → IsAscending n rows
    → is_lt (memcmp s end) ≡ false
    → rows_below end rows ≡ []
above_rest n end s [] e f above ascending stop = refl
above_rest n end s ((s', row) ∷ rows) e f above (e', above', ascending) stop =
    elim (Bool-cases (is_lt (memcmp s' end))) [
      | inl below ↦
          let lt = memcmp-below s s' end (e ∙ sym e') (e' ∙ sym f) above (is_lt-lt _ below) in
          absurd (true≢false (ap is_lt (sym lt) ∙ stop))
      | inr stop' ↦ rw stop' (above_rest n end s' rows e' f above' ascending stop')
    ]
  where
    true≢false : true ≢ false
    true≢false h = cc

module _ {Row K V : Type 0} (lib : RowLib Row V) (key : StoredKey K) (f : List ℕ) where
  call-taken :
      (cb : RangeScanCallback K V) (s : List ℕ) (row : Row)
      → is_lt (memcmp s cb.end) ≡ true
      → is_single f (lib.ncol (lib.snapshot row f)) ≡ true
      → call lib key f cb s row
        ≡ done (
          true,
          record cb {
            result =
                cb.result ++ (key.restored s, lib.col (lib.snapshot row f) (first_column f)) ∷ [];
          },
        )
  unfolding call
  call-taken cb s row below single =
      let lt = is_lt-lt (memcmp s cb.end) below in rw (call, lt, single) refl

  call-stop :
      (cb : RangeScanCallback K V) (s : List ℕ) (row : Row)
      → is_lt (memcmp s cb.end) ≡ false
      → call lib key f cb s row ≡ done (false, cb)
  unfolding call
  call-stop cb s row stop = ground (arith, stop)

  -- the rows as the callback returns them
  abbrev pub taken_rows : List (List ℕ × Row) → List (K × V)
  taken_rows [] = []
  taken_rows ((s, row) ∷ rows) =
      (key.restored s, lib.col (lib.snapshot row f) (first_column f)) ∷ taken_rows rows

  feed-step :
      (cb cb' : RangeScanCallback K V) (s : List ℕ) (row : Row) (rows : List (List ℕ × Row))
      (more : Bool)
      → call lib key f cb s row ≡ done (more, cb')
      → feed lib key f cb ((s, row) ∷ rows)
        ≡ (let rest = feed lib key f cb' rows in if more then rest else done cb')
  unfolding feed
  feed-step cb cb' s row rows more e = rw e refl

  feed-rows :
      (n : ℕ) (rows : List (List ℕ × Row)) (cb : RangeScanCallback K V)
      → length cb.end ≡ n
      → IsAscending n rows
      → ((row : Row) → is_single f (lib.ncol (lib.snapshot row f)) ≡ true)
      → feed lib key f cb rows
        ≡ done (record cb { result = cb.result ++ taken_rows (rows_below cb.end rows) })
  unfolding feed
  feed-rows n [] cb e ascending single = rw append-nil refl
  feed-rows n ((s, row) ∷ rows) cb e (long, above, ascending) single =
      elim (Bool-cases (is_lt (memcmp s cb.end))) [
        | inl below ↦
            let first : K × V = (key.restored s, lib.col (lib.snapshot row f) (first_column f)) in
            let cb' : RangeScanCallback K V = record cb { result = cb.result ++ first ∷ [] } in
            let joined =
              append_assoc cb.result (first ∷ []) (taken_rows (rows_below cb.end rows)) in
            feed-step cb cb' s row rows true (call-taken cb s row below (single row))
            ∙ feed-rows n rows cb' e ascending single
            ∙ rw (below, joined) refl
        | inr stop ↦
            feed-step cb cb s row rows false (call-stop cb s row stop)
            ∙ rw (stop, above_rest n cb.end s rows long e above ascending stop, append-nil) refl
      ]

  -- Where the keys have as many bytes as the end, and a row or the query has one column: a scan in
  -- ascending order that stops when the callback returns false leaves in the result the rows whose key is
  -- below the end, all of them, in their order, with their keys restored, and nothing that the result had before.
  pub feed-rows_below :
      (begin : K) (end : List ℕ) (result : List (K × V)) (rows : List (List ℕ × Row))
      → IsAscending (length end) rows
      → ((row : Row) → is_single f (lib.ncol (lib.snapshot row f)) ≡ true)
      → feed lib key f (make_callback begin end result) rows
        ≡ done (record { begin = begin; end = end; result = taken_rows (rows_below end rows) })
  feed-rows_below begin end result rows ascending single =
      feed-rows (length end) rows (make_callback begin end result) refl ascending single
