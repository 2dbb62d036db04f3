-- ===== src/Bytes/Equality.antt =====
-- Whether two strings of bytes are the same, and maps from such strings.
use sidle_baselines.Base.{
  ℕ, ◌≡◌, ◌≢◌, refl, Bool, true, false, ◌&&◌, Option, List, [], ◌∷◌, ◌==◌, inl, inr, Bool-cases,
  if◌then◌else◌, arith, ap, sym, ◌∙◌,
}
use mathlib.Core.Path.{ap₂}

abbrev pub same_bytes : List ℕ → List ℕ → Bool
same_bytes [] [] = true
same_bytes [] (y ∷ ys) = false
same_bytes (x ∷ xs) [] = false
same_bytes (x ∷ xs) (y ∷ ys) = (x == y) && same_bytes xs ys

pub same_bytes_refl : (xs : List ℕ) → same_bytes xs xs ≡ true
same_bytes_refl [] = refl
same_bytes_refl (x ∷ xs) = ground (arith, same_bytes_refl xs)

pub same_bytes-true : (xs ys : List ℕ) → same_bytes xs ys ≡ true → xs ≡ ys
same_bytes-true [] [] e = refl
same_bytes-true [] (y ∷ ys) e = absurd cc
same_bytes-true (x ∷ xs) [] e = absurd cc
same_bytes-true (x ∷ xs) (y ∷ ys) e =
    let head : x ≡ y = ground (arith, e) in
    let tail : same_bytes xs ys ≡ true = ground (arith, e) in
    ap₂ (λ z zs. z ∷ zs) head (same_bytes-true xs ys tail)

pub same_bytes-false : (xs ys : List ℕ) → xs ≢ ys → same_bytes xs ys ≡ false
same_bytes-false xs ys apart = elim (Bool-cases (same_bytes xs ys)) [
  | inl same ↦ absurd (apart (same_bytes-true xs ys same))
  | inr differ ↦ differ
]

-- a map from strings of bytes, with what it has at one of them replaced
abbrev pub updated : {V : Type 0} → (List ℕ → Option V) → List ℕ → Option V → List ℕ → Option V
updated m s o b = if same_bytes s b then o else m b

pub updated_lem :
    {V : Type 0} (m m' : List ℕ → Option V) (s : List ℕ) (o : Option V)
    → m' s ≡ o
    → ((b : List ℕ) → s ≢ b → m' b ≡ m b)
    → (b : List ℕ) → m' b ≡ updated m s o b
updated_lem m m' s o here there b = elim (Bool-cases (same_bytes s b)) [
  | inl same ↦ rw same (ap m' (sym (same_bytes-true s b same)) ∙ here)
  | inr differ ↦
      rw differ (there b (λ e. true≢false (sym (same_bytes_refl s) ∙ ap (same_bytes s) e ∙ differ)))
]
  where
    true≢false : true ≢ false
    true≢false h = cc
