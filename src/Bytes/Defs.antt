-- ===== src/Bytes/Defs.antt =====
-- The bytes of a word, the word of some bytes, and `memcmp` on them.
use Prim.Native.Nat.{compare, Ordering}
use sidle_baselines.Base.{
  ℕ, zero, suc, ◌+◌, ◌*◌, ◌/◌, ◌%◌, ◌<◌, Bool, ◌==◌, List, [], ◌∷◌, reverse, false,
}

pub data ByteOrder : Type 0 where
  little big : ByteOrder

abbrev pub IsBytes : List ℕ → Type 0
IsBytes [] = Unit
IsBytes (b ∷ bs) = (b < 256) × IsBytes bs

-- the n bytes of a word, the lowest first
unfoldable pub bytes : ℕ → ℕ → List ℕ
bytes zero x = []
bytes (suc n) x = (x % 256) ∷ bytes n (x / 256)

-- the word that these bytes are, the lowest first
unfoldable pub word : List ℕ → ℕ
word [] = 0
word (b ∷ bs) = b + 256 * word bs

-- `memcmp` of as many bytes as both have; its sign is the order
unfoldable pub memcmp : List ℕ → List ℕ → Ordering
memcmp [] ys = Ordering.eq
memcmp (x ∷ xs) [] = Ordering.eq
memcmp (x ∷ xs) (y ∷ ys) = elim (compare x y) [
  | Ordering.eq ↦ memcmp xs ys
  | Ordering.lt ↦ Ordering.lt
  | Ordering.gt ↦ Ordering.gt
]

-- an n-byte word as it lies in memory, and as it is read from there
unfoldable pub store : ByteOrder → ℕ → ℕ → List ℕ
unfolding bytes
store little n x = bytes n x
store big n x = reverse (bytes n x)

unfoldable pub load : ByteOrder → List ℕ → ℕ
unfolding word
load little bs = word bs
load big bs = word (reverse bs)

-- src/helper.h: `little_endian`, which looks at the first byte of an int that is 1
unfoldable pub little_endian : ByteOrder → Bool
unfolding store
little_endian order = elim (store order 4 1) [ [] ↦ false | b ∷ bs ↦ b == 1 ]
