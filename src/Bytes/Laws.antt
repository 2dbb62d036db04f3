-- ===== src/Bytes/Laws.antt =====
-- Lemmas on words, their bytes, and `memcmp`.
use Prim.Native.Nat.{compare, Ordering}
use native.Mathlib.Nat.{pow-succ'}
use mathlib.Core.List.{reverse-cons, reverse-reverse}
use sidle_baselines.Base.{
  ℕ, zero, suc, ◌+◌, ◌*◌, ◌/◌, ◌%◌, ◌^◌, ◌<◌, ◌≡◌, refl, ap, ◌∙◌, List, [], ◌∷◌, ◌++◌, reverse,
  length, true, false, length-append, arith,
}
use sidle_baselines.Bytes.Defs.{
  ByteOrder, little, big, IsBytes, bytes, word, memcmp, store, load, little_endian,
}

pub word-bytes : (n x : ℕ) → x < 256 ^ n → word (bytes n x) ≡ x
unfolding word bytes
word-bytes zero x h = omega arith
word-bytes (suc n) x h =
    let small : x / 256 < 256 ^ n = omega (arith, pow-succ' 256 n) in
    omega (arith, word-bytes n (x / 256) small)

pub bytes-IsBytes : (n x : ℕ) → IsBytes (bytes n x)
unfolding bytes
bytes-IsBytes zero x = tt
bytes-IsBytes (suc n) x = (omega arith, bytes-IsBytes n (x / 256))

pub length-bytes : (n x : ℕ) → length (bytes n x) ≡ n
unfolding bytes
length-bytes zero x = refl
length-bytes (suc n) x = ap suc (length-bytes n (x / 256))

pub bytes-word : (bs : List ℕ) → IsBytes bs → bytes (length bs) (word bs) ≡ bs
unfolding bytes word
bytes-word [] h = refl
bytes-word (b ∷ bs) h =
    let low : (b + 256 * word bs) % 256 ≡ b = omega arith in
    let rest : (b + 256 * word bs) / 256 ≡ word bs = omega arith in
    rw (low, rest, bytes-word bs h.1)

-- a byte in front of a word
compare_digit :
    (x y p q : ℕ)
    → x < 256
    → y < 256
    → compare (x + 256 * p) (y + 256 * q) ≡ (elim (compare p q) [
      | Ordering.eq ↦ compare x y
      | Ordering.lt ↦ Ordering.lt
      | Ordering.gt ↦ Ordering.gt
    ])
compare_digit x y p q hx hy = ground arith

memcmp-append :
    (xs ys : List ℕ) (x y : ℕ)
    → length xs ≡ length ys
    → memcmp (xs ++ x ∷ []) (ys ++ y ∷ []) ≡ (elim (memcmp xs ys) [
      | Ordering.eq ↦ compare x y
      | Ordering.lt ↦ Ordering.lt
      | Ordering.gt ↦ Ordering.gt
    ])
unfolding memcmp
memcmp-append [] [] x y e = ground arith
memcmp-append [] (b ∷ ys) x y e = absurd (omega arith)
memcmp-append (a ∷ xs) [] x y e = absurd (omega arith)
memcmp-append (a ∷ xs) (b ∷ ys) x y e = ground (arith, memcmp-append xs ys x y)

pub length-reverse : (xs : List ℕ) → length (reverse xs) ≡ length xs
length-reverse [] = refl
length-reverse (x ∷ xs) =
    rw (reverse-cons x xs) (length-append (reverse xs) (x ∷ []) ∙ omega (arith, length-reverse xs))

-- Read from the highest byte on, two strings of as many bytes compare as the words that they are.
pub memcmp-reverse :
    (xs ys : List ℕ)
    → length xs ≡ length ys
    → IsBytes xs
    → IsBytes ys
    → memcmp (reverse xs) (reverse ys) ≡ compare (word xs) (word ys)
unfolding word memcmp
memcmp-reverse [] [] e hx hy = refl
memcmp-reverse [] (b ∷ ys) e hx hy = absurd (omega arith)
memcmp-reverse (a ∷ xs) [] e hx hy = absurd (omega arith)
memcmp-reverse (a ∷ xs) (b ∷ ys) e hx hy = rw (
  reverse-cons a xs,
  reverse-cons b ys,
  memcmp-append (reverse xs) (reverse ys) a b (omega (arith, length-reverse xs, length-reverse ys)),
  memcmp-reverse xs ys (omega arith) hx.1 hy.1,
  compare_digit a b (word xs) (word ys) hx.0 hy.0,
)

pub IsBytes-append : (xs ys : List ℕ) → IsBytes xs → IsBytes ys → IsBytes (xs ++ ys)
IsBytes-append [] ys h k = k
IsBytes-append (x ∷ xs) ys h k = (h.0, IsBytes-append xs ys h.1 k)

pub IsBytes-reverse : (xs : List ℕ) → IsBytes xs → IsBytes (reverse xs)
IsBytes-reverse [] h = tt
IsBytes-reverse (x ∷ xs) h =
    rw (reverse-cons x xs) (IsBytes-append (reverse xs) (x ∷ []) (IsBytes-reverse xs h.1) (h.0, tt))

-- A word that is read from n bytes and stored again gives these bytes.
pub store-load :
    (order : ByteOrder) (n : ℕ) (bs : List ℕ)
    → length bs ≡ n
    → IsBytes bs
    → store order n (load order bs) ≡ bs
unfolding store load
store-load little n bs e h = rw (← e) (bytes-word bs h)
store-load big n bs e h =
    let back = bytes-word (reverse bs) (IsBytes-reverse bs h) in
    rw (← e, ← length-reverse bs, back) (reverse-reverse bs)

pub load-store : (order : ByteOrder) (n x : ℕ) → x < 256 ^ n → load order (store order n x) ≡ x
unfolding store load
load-store little n x h = word-bytes n x h
load-store big n x h = rw reverse-reverse (word-bytes n x h)

pub length-store : (order : ByteOrder) (n x : ℕ) → length (store order n x) ≡ n
unfolding store
length-store little n x = length-bytes n x
length-store big n x = length-reverse (bytes n x) ∙ length-bytes n x

pub store-IsBytes : (order : ByteOrder) (n x : ℕ) → IsBytes (store order n x)
unfolding store
store-IsBytes little n x = bytes-IsBytes n x
store-IsBytes big n x = IsBytes-reverse (bytes n x) (bytes-IsBytes n x)

pub little_endian-little : little_endian little ≡ true
unfolding little_endian
little_endian-little = refl

pub little_endian-big : little_endian big ≡ false
unfolding little_endian
little_endian-big = refl

pub store-little : (n x : ℕ) → store little n x ≡ bytes n x
unfolding store
store-little n x = refl

pub store-big : (n x : ℕ) → store big n x ≡ reverse (bytes n x)
unfolding store
store-big n x = refl

-- Strings in two parts of as many bytes compare by the first part, then by the second.
pub memcmp-append_parts :
    (xs ys us vs : List ℕ)
    → length xs ≡ length ys
    → memcmp (xs ++ us) (ys ++ vs) ≡ (elim (memcmp xs ys) [
      | Ordering.eq ↦ memcmp us vs
      | Ordering.lt ↦ Ordering.lt
      | Ordering.gt ↦ Ordering.gt
    ])
unfolding memcmp
memcmp-append_parts [] [] us vs e = refl
memcmp-append_parts [] (b ∷ ys) us vs e = absurd (omega arith)
memcmp-append_parts (a ∷ xs) [] us vs e = absurd (omega arith)
memcmp-append_parts (a ∷ xs) (b ∷ ys) us vs e = ground (arith, memcmp-append_parts xs ys us vs)
