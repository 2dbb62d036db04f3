-- ===== src/Keys/Packed.antt =====
-- benchmark/real_world/tpcc.h: what the key structs have in common. They are packed, so that a struct is
-- the row of its fields, the first at the lowest address; eight bytes long, they are compared as one
-- uint64_t, and `to_str_key` turns their bytes round.
use Prim.Native.Nat.{compare, Ordering}
use sidle_baselines.Base.{
  ℕ, Bool, true, false, not, List, [], ◌∷◌, ◌++◌, reverse, ltb, leb, ◌==◌, if◌then◌else◌,
}
use sidle_baselines.Bytes.{ByteOrder, store, load, little_endian}

-- the fields of a struct in memory order, each with its size in bytes
abbrev pub Layout : Type 0
Layout = List (ℕ × ℕ)

pub record KeyStruct (K : Type 0) : Type 0 where
  pub layout : K → Layout
  -- `to_model_key`, before the fields are cast to double
  pub to_model_key : K → List ℕ

-- `smaller` of `H_key`: the first feature that differs decides
unfoldable pub smaller : List ℕ → List ℕ → Bool
smaller [] rk = false
smaller (x ∷ lk) [] = false
smaller (x ∷ lk) (y ∷ rk) = elim (compare x y) [
  | Ordering.gt ↦ false
  | Ordering.lt ↦ true
  | Ordering.eq ↦ smaller lk rk
]

unfoldable pub image : ByteOrder → Layout → List ℕ
unfolding store
image order [] = []
image order ((width, v) ∷ fields) = store order width v ++ image order fields

module _ {K : Type 0} ⦃s : KeyStruct K⦄ (order : ByteOrder) where
  -- `*((uint64_t *)&key)`
  unfoldable pub as_uint64 : K → ℕ
  as_uint64 k = load order (image order (s.layout k))

  -- the bytes of the struct that `to_str_key` returns
  unfoldable pub to_str_key : K → List ℕ
  to_str_key k =
      if little_endian order then reverse (image order (s.layout k)) else image order (s.layout k)

  -- the friend operators < > == != >= <=
  unfoldable pub less : K → K → Bool
  less l r = ltb (as_uint64 l) (as_uint64 r)

  unfoldable pub greater : K → K → Bool
  greater l r = ltb (as_uint64 r) (as_uint64 l)

  unfoldable pub equal : K → K → Bool
  equal l r = as_uint64 l == as_uint64 r

  unfoldable pub unequal : K → K → Bool
  unequal l r = not (equal l r)

  unfoldable pub greater_equal : K → K → Bool
  greater_equal l r = leb (as_uint64 r) (as_uint64 l)

  unfoldable pub less_equal : K → K → Bool
  less_equal l r = leb (as_uint64 l) (as_uint64 r)
