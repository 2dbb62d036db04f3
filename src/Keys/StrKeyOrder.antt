-- ===== src/Keys/StrKeyOrder.antt =====
-- benchmark/synthetic/micro_base.h: the model keys of the byte-string keys, and the order of the
-- strings.
use Prim.Native.Nat.{compare, Ordering}
use mathlib.Core.List.{reverse-reverse}
use mathlib.Core.Path.{ap₂}
use sidle_baselines.Base.{
  ℕ, zero, suc, ◌+◌, ◌-◌, ◌*◌, ◌/◌, ◌%◌, ◌^◌, ◌≤◌, ◌<◌, ◌≡◌, refl, sym, ap, ◌∙◌, Bool, true, false,
  ◌||◌, List, [], ◌∷◌, ◌++◌, reverse, length, take, drop, take-append-drop, length-take,
  length-drop, length-append, map, ◌==◌, if◌then◌else◌, arith,
}
use sidle_baselines.Memory.{done, fault, exits}
use sidle_baselines.Bytes.{
  ByteOrder, little, big, IsBytes, word, load, memcmp, memcmp-reverse, length-reverse,
  IsBytes-reverse, little_endian-little, little_endian-big, memcmp-append_parts,
}
use sidle_baselines.Keys.StrKey.{model_key_size, chunk_word, unit_words, to_model_words, keycmp}

-- In either byte order the word of a unit is its bytes read from the highest on.
chunk_word-reverse : (order : ByteOrder) (bs : List ℕ) → chunk_word order bs ≡ word (reverse bs)
unfolding chunk_word load
chunk_word-reverse little bs = rw little_endian-little
chunk_word-reverse big bs = rw little_endian-big

compare-chunk_word :
    (order : ByteOrder) (xs ys : List ℕ)
    → length xs ≡ length ys
    → IsBytes xs
    → IsBytes ys
    → compare (chunk_word order xs) (chunk_word order ys) ≡ memcmp xs ys
compare-chunk_word order xs ys e hx hy =
    rw (chunk_word-reverse order xs, chunk_word-reverse order ys)
      (sym (
          memcmp-reverse (reverse xs) (reverse ys) (length-reverse xs ∙ e ∙ sym (length-reverse ys))
            (IsBytes-reverse xs hx) (IsBytes-reverse ys hy))
        ∙ ap₂ memcmp (reverse-reverse xs) (reverse-reverse ys))

IsBytes-take : (n : ℕ) (xs : List ℕ) → IsBytes xs → IsBytes (take n xs)
IsBytes-take zero xs h = tt
IsBytes-take (suc n) [] h = tt
IsBytes-take (suc n) (x ∷ xs) h = (h.0, IsBytes-take n xs h.1)

IsBytes-drop : (n : ℕ) (xs : List ℕ) → IsBytes xs → IsBytes (drop n xs)
IsBytes-drop zero xs h = h
IsBytes-drop (suc n) [] h = tt
IsBytes-drop (suc n) (x ∷ xs) h = IsBytes-drop n xs h.1

drop_nil : (m : ℕ) → drop {A = ℕ} m [] ≡ []
drop_nil zero = refl
drop_nil (suc m) = refl

drop-drop : (k m j : ℕ) (xs : List ℕ) → j ≡ k + m → drop j xs ≡ drop m (drop k xs)
drop-drop zero m j xs e = rw (let same : j ≡ m = omega arith in same)
drop-drop (suc k) m zero xs e = absurd (omega arith)
drop-drop (suc k) m (suc j) [] e = sym (drop_nil m)
drop-drop (suc k) m (suc j) (x ∷ xs) e = drop-drop k m j xs (omega arith)

memcmp_parts :
    (n : ℕ) (xs ys : List ℕ)
    → n ≤ length xs
    → length xs ≡ length ys
    → (elim (memcmp (take n xs) (take n ys)) [
      | Ordering.eq ↦ memcmp (drop n xs) (drop n ys)
      | Ordering.lt ↦ Ordering.lt
      | Ordering.gt ↦ Ordering.gt
    ])
      ≡ memcmp xs ys
memcmp_parts n xs ys h e =
    sym (
      memcmp-append_parts (take n xs) (take n ys) (drop n xs) (drop n ys)
        (length-take n xs h ∙ sym (length-take n ys (omega arith))))
    ∙ ap₂ memcmp (take-append-drop n xs) (take-append-drop n ys)

-- the model words of n whole units and of the bytes behind them
abbrev pub words : ByteOrder → ℕ → List ℕ → List ℕ
words order n buf = unit_words order n buf ++ chunk_word order (drop (n * 8) buf) ∷ []

keycmp-cons :
    (x y : ℕ) (lk rk : List ℕ) (first rest : Ordering)
    → compare x y ≡ first
    → keycmp lk rk ≡ rest
    → keycmp (x ∷ lk) (y ∷ rk)
      ≡ (elim first [ Ordering.eq ↦ rest | Ordering.lt ↦ Ordering.lt | Ordering.gt ↦ Ordering.gt ])
unfolding keycmp
keycmp-cons x y lk rk first rest c r = ground arith

keycmp-words :
    (order : ByteOrder) (n : ℕ) (xs ys : List ℕ)
    → n * 8 ≤ length xs
    → length xs ≡ length ys
    → IsBytes xs
    → IsBytes ys
    → keycmp (words order n xs) (words order n ys) ≡ memcmp xs ys
unfolding unit_words keycmp
keycmp-words order zero xs ys h e hx hy = ground (arith, compare-chunk_word order xs ys e hx hy)
keycmp-words order (suc n) xs ys h e hx hy =
    rw
      (
        drop-drop 8 (n * 8) (suc n * 8) xs (omega arith),
        drop-drop 8 (n * 8) (suc n * 8) ys (omega arith),
      )
      (keycmp-cons (chunk_word order (take 8 xs)) (chunk_word order (take 8 ys))
          (words order n (drop 8 xs)) (words order n (drop 8 ys)) (memcmp (take 8 xs) (take 8 ys))
          (memcmp (drop 8 xs) (drop 8 ys))
          (compare-chunk_word order (take 8 xs) (take 8 ys)
            (length-take 8 xs (omega arith) ∙ sym (length-take 8 ys (omega arith)))
            (IsBytes-take 8 xs hx) (IsBytes-take 8 ys hy))
          (keycmp-words order n (drop 8 xs) (drop 8 ys) (omega (arith, length-drop 8 xs))
            (omega (arith, length-drop 8 xs, length-drop 8 ys)) (IsBytes-drop 8 xs hx)
            (IsBytes-drop 8 ys hy))
        ∙ memcmp_parts 8 xs ys (omega arith) e)

-- the lengths of which `to_model_key` makes a key: the last unit has 1, 2, 4 or 8 bytes
abbrev pub has_model_key : ℕ → Bool
has_model_key len = len % 8 == 0 || len % 8 == 1 || len % 8 == 2 || len % 8 == 4

take_all : (n : ℕ) (xs : List ℕ) → n ≡ length xs → take n xs ≡ xs
take_all zero [] e = refl
take_all (suc n) [] e = refl
take_all zero (x ∷ xs) e = absurd (omega arith)
take_all (suc n) (x ∷ xs) e = ap (λ r. x ∷ r) (take_all n xs (omega arith))

length-unit_words : (order : ByteOrder) (n : ℕ) (xs : List ℕ) → length (unit_words order n xs) ≡ n
unfolding unit_words
length-unit_words order zero xs = refl
length-unit_words order (suc n) xs = ap suc (length-unit_words order n (drop 8 xs))

-- `to_model_key` where it returns
to_model_words_lem :
    (cast : ℕ → ℕ) (order : ByteOrder) (len : ℕ) (xs : List ℕ)
    → 0 < len
    → has_model_key len ≡ true
    → length xs ≡ len
    → (to_model_words cast order len xs ≡ done (map cast (words order (model_key_size len - 1) xs)))
      × ((model_key_size len - 1) * 8 ≤ len)
unfolding to_model_words model_key_size
to_model_words_lem cast order len xs pos ok e =
    let whole : ℕ = (if len % 8 == 0 then len / 8 else len / 8 + 1) - 1 in
    let fits : whole * 8 ≤ len = ground arith in
    let rest =
      take_all (len - whole * 8) (drop (whole * 8) xs)
        (omega (arith, length-drop (whole * 8) xs)) in
    (ground (arith, rest), fits)

size_pos : (len : ℕ) → 0 < len → 0 < model_key_size len
unfolding model_key_size
size_pos len h = ground arith

-- the words that a double holds exactly
abbrev pub AreExact : List ℕ → Type 0
AreExact [] = Unit
AreExact (x ∷ xs) = (x < 2 ^ 53) × AreExact xs

map-AreExact :
    (cast : ℕ → ℕ)
    → ((n : ℕ) → n < 2 ^ 53 → cast n ≡ n)
    → (xs : List ℕ) → AreExact xs
    → map cast xs ≡ xs
map-AreExact cast exact [] small = refl
map-AreExact cast exact (x ∷ xs) small =
    ap₂ (λ y ys. y ∷ ys) (exact x small.0) (map-AreExact cast exact xs small.1)

-- On either kind of machine, where a word below 2^53 is cast to itself, as a double can hold it: two keys of
-- one positive length, with a last unit of 1, 2, 4 or 8 bytes and with all words below 2^53. `to_model_key`
-- makes a model key of each, the first has `model_key_size` features, and the features compare by `keycmp`
-- as the byte strings do by `memcmp`.
pub to_model_words-memcmp :
    (cast : ℕ → ℕ)
    → ((n : ℕ) → n < 2 ^ 53 → cast n ≡ n)
    → (order : ByteOrder) (len : ℕ) (xs ys : List ℕ) → 0 < len
    → has_model_key len ≡ true
    → length xs ≡ len
    → length ys ≡ len
    → IsBytes xs
    → IsBytes ys
    → AreExact (words order (model_key_size len - 1) xs)
    → AreExact (words order (model_key_size len - 1) ys)
    → (us : List ℕ) × (vs : List ℕ) × (to_model_words cast order len xs ≡ done us)
      × (to_model_words cast order len ys ≡ done vs)
      × (length us ≡ model_key_size len)
      × (keycmp us vs ≡ memcmp xs ys)
to_model_words-memcmp cast exact order len xs ys pos ok ex ey hx hy small_x small_y =
    let (mx, fits) = to_model_words_lem cast order len xs pos ok ex in
    let (my, _) = to_model_words_lem cast order len ys pos ok ey in
    let n : ℕ = model_key_size len - 1 in
    (
      words order n xs,
      words order n ys,
      mx ∙ ap done (map-AreExact cast exact (words order n xs) small_x),
      my ∙ ap done (map-AreExact cast exact (words order n ys) small_y),
      length-append (unit_words order n xs) (chunk_word order (drop (n * 8) xs) ∷ [])
          ∙ ground (arith, length-unit_words order n xs, size_pos len pos),
      keycmp-words order n xs ys (omega arith) (omega arith) hx hy,
    )

-- Where the last unit has none of 1, 2, 4 and 8 bytes, `to_model_key` ends the process.
pub to_model_words-exits :
    (cast : ℕ → ℕ) (order : ByteOrder) (len : ℕ) (xs : List ℕ)
    → has_model_key len ≡ false
    → to_model_words cast order len xs ≡ fault exits
unfolding to_model_words model_key_size
to_model_words-exits cast order len xs no_key = ground arith
