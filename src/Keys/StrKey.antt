-- ===== src/Keys/StrKey.antt =====
-- benchmark/synthetic/micro_base.h: the byte-string keys `StrBagKey` and `StrKey`. A key is its `buf`, a
-- list of `len` bytes.
use Prim.Native.Nat.{compare, Ordering}
use sidle_baselines.Base.{
  ℕ, zero, suc, ◌+◌, ◌-◌, ◌*◌, ◌/◌, ◌%◌, Bool, true, false, ◌||◌, List, [], ◌∷◌, ◌++◌, map, reverse,
  length, take, drop, replicate, leb, ◌==◌, if◌then◌else◌,
}
use sidle_baselines.Memory.{Run, done, fault, exits, out_of_bounds, ◌>>◌, check}
use sidle_baselines.Bytes.{ByteOrder, load, memcmp, little_endian}

-- `max()` and `min()`
abbrev pub max_key : ℕ → List ℕ
max_key len = replicate len 255

abbrev pub min_key : ℕ → List ℕ
min_key len = replicate len 0

-- `StrBagKey(s)`: a longer text fails the assertion, a shorter one is filled up by zeros.
unfoldable pub make : ℕ → List ℕ → Run (List ℕ)
make len s = do check (leb (length s) len); done (s ++ replicate (len - length s) 0)

-- `StrKey(s)`, which has no assertion: the copy of a longer text runs over the end of `buf`.
unfoldable pub make_unchecked : ℕ → List ℕ → Run (List ℕ)
make_unchecked len s =
    if leb (length s) len then done (s ++ replicate (len - length s) 0) else fault out_of_bounds

-- `StrBagKey(uint64_t)` and `StrKey(uint64_t)`
abbrev pub make_int : ℕ → Run (List ℕ)
make_int key = fault exits

abbrev pub to_str_key : List ℕ → List ℕ
to_str_key k = k

abbrev pub to_wh_key : List ℕ → List ℕ
to_wh_key k = k

abbrev pub to_normal_key : List ℕ → List ℕ
to_normal_key k = to_str_key k

-- the friend operators < > >= <= == !=, on the sign of `memcmp`
unfoldable pub less : List ℕ → List ℕ → Bool
less l r = elim (memcmp l r) [ Ordering.lt ↦ true | Ordering.eq ↦ false | Ordering.gt ↦ false ]

unfoldable pub greater : List ℕ → List ℕ → Bool
greater l r = elim (memcmp l r) [ Ordering.lt ↦ false | Ordering.eq ↦ false | Ordering.gt ↦ true ]

unfoldable pub greater_equal : List ℕ → List ℕ → Bool
greater_equal l r = elim (memcmp l r) [
  | Ordering.lt ↦ false
  | Ordering.eq ↦ true
  | Ordering.gt ↦ true
]

unfoldable pub less_equal : List ℕ → List ℕ → Bool
less_equal l r = elim (memcmp l r) [ Ordering.lt ↦ true | Ordering.eq ↦ true | Ordering.gt ↦ false ]

unfoldable pub equal : List ℕ → List ℕ → Bool
equal l r = elim (memcmp l r) [ Ordering.lt ↦ false | Ordering.eq ↦ true | Ordering.gt ↦ false ]

unfoldable pub unequal : List ℕ → List ℕ → Bool
unequal l r = elim (memcmp l r) [ Ordering.lt ↦ true | Ordering.eq ↦ false | Ordering.gt ↦ true ]

-- `model_key_size()` at `model_unit = 8`
unfoldable pub model_key_size : ℕ → ℕ
model_key_size len = if len % 8 == 0 then len / 8 else len / 8 + 1

-- `temp`, read as a word: the bytes of `buf` from the highest on
unfoldable pub chunk_word : ByteOrder → List ℕ → ℕ
chunk_word order bs = load order (if little_endian order then reverse bs else bs)

-- the rounds over whole units, each into one word of the model key
unfoldable pub unit_words : ByteOrder → ℕ → List ℕ → List ℕ
unit_words order zero buf = []
unit_words order (suc n) buf = chunk_word order (take 8 buf) ∷ unit_words order n (drop 8 buf)

-- `StrBagKey::to_model_key`. The features are doubles; one that is assigned from a word holds an integer,
-- which is what `cast` makes of the word. The last unit has the bytes that are left, of which there must
-- be 1, 2, 4 or 8.
unfoldable pub to_model_words : (ℕ → ℕ) → ByteOrder → ℕ → List ℕ → Run (List ℕ)
to_model_words cast order len buf =
    let whole = model_key_size len - 1 in
    let trailing_byte_n = len - whole * 8 in
    let trailing = take trailing_byte_n (drop (whole * 8) buf) in
    if trailing_byte_n == 1 || trailing_byte_n == 2 || trailing_byte_n == 4 || trailing_byte_n == 8
    then done (map cast (unit_words order whole buf ++ chunk_word order trailing ∷ []))
    else fault exits

-- `StrKey::to_model_key`: each byte is a feature
unfoldable pub to_model_key : {F : Type 0} → (ℕ → F) → List ℕ → List F
to_model_key feat buf = map feat buf

-- `StrBagKey::keycmp` over the first `l` features, as the integers that the doubles hold
unfoldable pub keycmp : List ℕ → List ℕ → Ordering
keycmp [] rk = Ordering.eq
keycmp (x ∷ lk) [] = Ordering.eq
keycmp (x ∷ lk) (y ∷ rk) = elim (compare x y) [
  | Ordering.gt ↦ Ordering.gt
  | Ordering.lt ↦ Ordering.lt
  | Ordering.eq ↦ keycmp lk rk
]
