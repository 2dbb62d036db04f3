-- ===== src/Keys/PackedOrder.antt =====
-- benchmark/real_world/tpcc.h: the order of packed key structs, in terms of their fields from the
-- last to the first.
use Prim.Native.Nat.{compare, Ordering}
use native.Mathlib.Nat.{pow-succ'}
use sidle_baselines.Base.{
  ℕ, ◌+◌, ◌*◌, ◌^◌, ◌≤◌, ◌<◌, ◌≡◌, refl, sym, ◌∙◌, true, false, List, [], ◌∷◌, ◌++◌, length,
  length-append, arith,
}
use sidle_baselines.Bytes.{
  little, IsBytes, word, store, load, memcmp, memcmp-reverse, store-little, little_endian-little,
  length-store, store-IsBytes, IsBytes-append, word-bytes,
}
use sidle_baselines.Keys.Packed.{Layout, KeyStruct, image, as_uint64, to_str_key, less}

-- each field is in the range of its type
abbrev pub Fits : Layout → Type 0
Fits [] = Unit
Fits ((width, v) ∷ fields) = (v < 256 ^ width) × Fits fields

abbrev pub SameWidths : Layout → Layout → Type 0
SameWidths [] [] = Unit
SameWidths [] (_ ∷ _) = ⊥
SameWidths (_ ∷ _) [] = ⊥
SameWidths ((w, _) ∷ l) ((w', _) ∷ r) = (w ≡ w') × SameWidths l r

-- the number with these fields as its digits, the first the lowest
packed : Layout → ℕ
packed [] = 0
packed ((width, v) ∷ fields) = v + 256 ^ width * packed fields

sum_widths : Layout → ℕ
sum_widths [] = 0
sum_widths ((width, v) ∷ fields) = width + sum_widths fields

-- the order of the fields: the last that differ decide
abbrev pub compare_fields : Layout → Layout → Ordering
compare_fields [] r = Ordering.eq
compare_fields (_ ∷ _) [] = Ordering.eq
compare_fields ((_, v) ∷ l) ((_, v') ∷ r) = elim (compare_fields l r) [
  | Ordering.eq ↦ compare v v'
  | Ordering.lt ↦ Ordering.lt
  | Ordering.gt ↦ Ordering.gt
]

mul_gap : (base p q : ℕ) → p < q → base + base * p ≤ base * q
mul_gap base p q h = grind arith

compare_digits :
    (base x y p q : ℕ)
    → x < base
    → y < base
    → compare (x + base * p) (y + base * q) ≡ (elim (compare p q) [
      | Ordering.eq ↦ compare x y
      | Ordering.lt ↦ Ordering.lt
      | Ordering.gt ↦ Ordering.gt
    ])
compare_digits base x y p q hx hy = ground (arith, mul_gap base p q, mul_gap base q p)

compare-packed :
    (l r : Layout)
    → SameWidths l r
    → Fits l
    → Fits r
    → compare (packed l) (packed r) ≡ compare_fields l r
unfolding packed
compare-packed [] [] s hl hr = refl
compare-packed [] (y ∷ r) s hl hr = elim s [ ]
compare-packed (x ∷ l) [] s hl hr = elim s [ ]
compare-packed ((w, v) ∷ l) ((w', v') ∷ r) s hl hr = rw (
  s.0,
  compare_digits (256 ^ w') v v' (packed l) (packed r) (rw s.0 at hl.0) hr.0,
  compare-packed l r s.1 hl.1 hr.1,
)

word-append : (xs ys : List ℕ) → word (xs ++ ys) ≡ word xs + 256 ^ length xs * word ys
unfolding word
word-append [] ys = omega arith
word-append (x ∷ xs) ys = rw (pow-succ' 256 (length xs), word-append xs ys) (omega arith)

length-image : (l : Layout) → length (image little l) ≡ sum_widths l
unfolding image sum_widths
length-image [] = refl
length-image ((w, v) ∷ l) =
    length-append (store little w v) (image little l)
    ∙ omega (arith, length-store little w v, length-image l)

image-IsBytes : (l : Layout) → IsBytes (image little l)
unfolding image
image-IsBytes [] = tt
image-IsBytes ((w, v) ∷ l) = IsBytes-append _ _ (store-IsBytes little w v) (image-IsBytes l)

-- the word that the bytes of a struct are
word-image : (l : Layout) → Fits l → word (image little l) ≡ packed l
unfolding image packed word
word-image [] h = refl
word-image ((w, v) ∷ l) h = rw (
  word-append (store little w v) (image little l),
  length-store little w v,
  store-little w v,
  word-bytes w v h.0,
  word-image l h.1,
)

sum_widths-same : (l r : Layout) → SameWidths l r → sum_widths l ≡ sum_widths r
unfolding sum_widths
sum_widths-same [] [] s = refl
sum_widths-same [] (y ∷ r) s = elim s [ ]
sum_widths-same (x ∷ l) [] s = elim s [ ]
sum_widths-same (x ∷ l) (y ∷ r) s = omega (arith, s.0, sum_widths-same l r s.1)

module _ {K : Type 0} ⦃s : KeyStruct K⦄ (a b : K) (same : SameWidths (s.layout a) (s.layout b))
    (fits_a : Fits (s.layout a)) (fits_b : Fits (s.layout b)) where
  pub compare-as_uint64 :
      compare (as_uint64 little a) (as_uint64 little b) ≡ compare_fields (s.layout a) (s.layout b)
  unfolding as_uint64 load
  compare-as_uint64 = rw (
    word-image (s.layout a) fits_a,
    word-image (s.layout b) fits_b,
    compare-packed (s.layout a) (s.layout b) same fits_a fits_b,
  )

  pub memcmp-to_str_key :
      memcmp (to_str_key little a) (to_str_key little b) ≡ compare_fields (s.layout a) (s.layout b)
  unfolding to_str_key
  memcmp-to_str_key = rw (
    little_endian-little,
    memcmp-reverse (image little (s.layout a)) (image little (s.layout b))
        (length-image (s.layout a) ∙ sum_widths-same _ _ same ∙ sym (length-image (s.layout b)))
        (image-IsBytes (s.layout a)) (image-IsBytes (s.layout b)),
    word-image (s.layout a) fits_a,
    word-image (s.layout b) fits_b,
    compare-packed (s.layout a) (s.layout b) same fits_a fits_b,
  )

  pub less-compare_fields : less little a b ≡ (elim (compare_fields (s.layout a) (s.layout b)) [
    | Ordering.lt ↦ true
    | Ordering.eq ↦ false
    | Ordering.gt ↦ false
  ])
  unfolding less
  less-compare_fields = ground (arith, compare-as_uint64)
