-- ===== src/Tpcc/VarStr.antt =====
-- benchmark/real_world/tpcc.h `varibale_str`: the bytes of a fixed-width text, and how C reads them as a string.
use sidle_baselines.Base.{
  ℕ, zero, suc, ◌-◌, ◌≡◌, ◌≢◌, refl, List, [], ◌∷◌, ◌++◌, take, length, replicate, ◌==◌,
  if◌then◌else◌, arith,
}
use sidle_baselines.Memory.{Run, done, fault, out_of_bounds, ◌>>=◌}

-- `assign(const char *s)` into `buf` of n bytes: a longer text is cut, a shorter one filled up by spaces
unfoldable pub assign : ℕ → List ℕ → List ℕ
assign n s = take n s ++ replicate (n - length s) b' '

-- What `%s` reads of an array: the bytes before the first zero. Without one it reads past the end.
unfoldable pub c_string : List ℕ → Run (List ℕ)
c_string [] = fault out_of_bounds
c_string (x ∷ xs) =
    let rest = c_string xs in if x == 0 then done [] else (rest >>= λ s. done (x ∷ s))

-- no byte is zero, as in the text of a C string
abbrev pub HasNoZero : List ℕ → Type 0
HasNoZero [] = Unit
HasNoZero (x ∷ xs) = (x ≢ 0) × HasNoZero xs

c_string-past_end : (xs : List ℕ) → HasNoZero xs → c_string xs ≡ fault out_of_bounds
unfolding c_string
c_string-past_end [] no_zero = refl
c_string-past_end (x ∷ xs) no_zero = ground (arith, no_zero.0, c_string-past_end xs no_zero.1)

spaces-HasNoZero : (n : ℕ) → HasNoZero (replicate n b' ')
spaces-HasNoZero zero = tt
spaces-HasNoZero (suc n) = (omega arith, spaces-HasNoZero n)

append-HasNoZero : (xs ys : List ℕ) → HasNoZero xs → HasNoZero ys → HasNoZero (xs ++ ys)
append-HasNoZero [] ys hx hy = hy
append-HasNoZero (x ∷ xs) ys hx hy = (hx.0, append-HasNoZero xs ys hx.1 hy)

take-HasNoZero : (n : ℕ) (xs : List ℕ) → HasNoZero xs → HasNoZero (take n xs)
take-HasNoZero zero xs h = tt
take-HasNoZero (suc n) [] h = tt
take-HasNoZero (suc n) (x ∷ xs) h = (h.0, take-HasNoZero n xs h.1)

-- Of an array that a C string was assigned to, `%s` reads past the end.
pub c_string-assign :
    (n : ℕ) (s : List ℕ) → HasNoZero s → c_string (assign n s) ≡ fault out_of_bounds
unfolding assign
c_string-assign n s no_zero = c_string-past_end (take n s ++ replicate (n - length s) b' ') (
    append-HasNoZero (take n s) (replicate (n - length s) b' ') (take-HasNoZero n s no_zero)
      (spaces-HasNoZero (n - length s)))
