-- ===== src/Helper/Callback.antt =====
-- src/helper.h: `RangeScanCallback`, and the small classes beside it. The rows of the vendored Masstree
-- are a parameter.
use Prim.Native.Nat.{Ordering}
use sidle_baselines.Base.{
  ℕ, Bool, true, false, ◌&&◌, ◌||◌, List, [], ◌∷◌, ◌++◌, length, replicate, ◌==◌, if◌then◌else◌,
}
use sidle_baselines.Memory.{Run, done, fault, exits, ◌>>=◌, ◌>>◌, check}
use sidle_baselines.Bytes.{memcmp}
use sidle_baselines.Keys.Stored.{StoredKey}

-- What is called of a row, of a query with the columns `f_`.
pub record RowLib (Row V : Type 0) : Type 0 where
  pub snapshot : Row → List ℕ → Row
  pub ncol : Row → ℕ
  -- the data of a column, as a value
  pub col : Row → ℕ → V

pub record RangeScanCallback (K V : Type 0) : Type 0 where
  pub begin : K
  -- the bytes of `end`
  pub end : List ℕ
  pub result : List (K × V)

module _ {K V : Type 0} where
  -- the constructor, which clears the result that it is given
  abbrev pub make_callback : K → List ℕ → List (K × V) → RangeScanCallback K V
  make_callback begin end result = record { begin = begin; end = end; result = [] }

-- the column of a query that has one, or of a row that has one
unfoldable pub is_single : List ℕ → ℕ → Bool
is_single f ncol = (length f == 0) && (ncol == 1) || (length f == 1)

abbrev pub first_column : List ℕ → ℕ
first_column [] = 0
first_column (c ∷ f) = c

module _ {Row K V : Type 0} (lib : RowLib Row V) (stored_key : StoredKey K) where
  -- the call operator, for the bytes of a key
  unfoldable pub call :
      List ℕ → RangeScanCallback K V → List ℕ → Row → Run (Bool × RangeScanCallback K V)
  call f cb masstree_key value =
      let taken : Run (Bool × RangeScanCallback K V) =
        let row = lib.snapshot value f in
        if is_single f (lib.ncol row)
        then done (
          true,
          record cb {
            result =
                cb.result ++ (stored_key.restored masstree_key, lib.col row (first_column f)) ∷ [];
          },
        )
        else fault exits in
      elim (memcmp masstree_key cb.end) [
        | Ordering.lt ↦ taken
        | Ordering.eq ↦ done (false, cb)
        | Ordering.gt ↦ done (false, cb)
      ]

  -- A scan calls it with one row after another, until it returns false.
  unfoldable pub feed :
      List ℕ → RangeScanCallback K V → List (List ℕ × Row) → Run (RangeScanCallback K V)
  unfolding call
  feed f cb [] = done cb
  feed f cb ((s, row) ∷ rows) =
      call f cb s row >>= λ r. let rest = feed f r.1 rows in if r.0 then rest else done r.1

-- `SortedArrayKeyCompare`, where `as_key` is what bytes are when they are read as a key
abbrev pub sorted_array_key_compare :
    {K : Type 0} → (K → K → Bool) → (List ℕ → K) → List ℕ → List ℕ → Bool
sorted_array_key_compare less as_key left right = less (as_key left) (as_key right)

-- `StrCompare`, on the order of strings
abbrev pub str_compare : {S : Type 0} → (S → S → Bool) → ℕ → S → S → Run Bool
str_compare less key_seg_size left right = do check (key_seg_size == 1); done (less left right)

-- `RemoveVal::get`: as many zero bytes as a value has, read as one
abbrev pub remove_val : {V : Type 0} → (List ℕ → V) → ℕ → V
remove_val as_value size = as_value (replicate size 0)
