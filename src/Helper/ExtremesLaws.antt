-- ===== src/Helper/ExtremesLaws.antt =====
-- src/helper.h: what `min_max` returns, and that `max` and `max_range` agree.
use sidle_baselines.Base.{
  ◌≡◌, refl, ap, ◌∙◌, sym, true, false, List, [], ◌∷◌, if◌then◌else◌, Bool-cases, ◌⊎◌, inl, inr,
}
use sidle_baselines.Memory.{done}
use sidle_baselines.Helper.Extremes.{Comparable, IsOrder, max_loop, max, min_max_loop, min_max}

abbrev pub Every : {A : Type 0} → (A → Type 0) → List A → Type 0
Every P [] = Unit
Every P (x ∷ xs) = P x × Every P xs

abbrev pub Member : {A : Type 0} → A → List A → Type 0
Member a [] = true ≡ false
Member a (x ∷ xs) = (a ≡ x) ⊎ Member a xs

module _ {A : Type 0} (c : Comparable A) (order : IsOrder c) where
  -- what `max` and `min_max` keep of two values, one of them the largest so far
  larger :
      (v m : A)
      → (c.less (if c.greater v m then v else m) m ≡ false)
        × (c.less (if c.greater v m then v else m) v ≡ false)
        × (((if c.greater v m then v else m) ≡ m) ⊎ ((if c.greater v m then v else m) ≡ v))
  larger v m = elim (Bool-cases (c.greater v m)) [
    | inl above ↦
        rw above
          (order.asymmetric m v (sym (order.converse v m) ∙ above), order.irreflexive v, inr refl)
    | inr below ↦ rw below (order.irreflexive m, sym (order.converse v m) ∙ below, inl refl)
  ]

  smaller :
      (v n : A)
      → (c.less n (if c.less v n then v else n) ≡ false)
        × (c.less v (if c.less v n then v else n) ≡ false)
        × (((if c.less v n then v else n) ≡ n) ⊎ ((if c.less v n then v else n) ≡ v))
  smaller v n = elim (Bool-cases (c.less v n)) [
    | inl below ↦ rw below (order.asymmetric v n below, order.irreflexive v, inr refl)
    | inr above ↦ rw above (order.irreflexive n, above, inl refl)
  ]

  max_loop-extreme :
      (vals : List A) (m : A)
      → (c.less (max_loop c vals m) m ≡ false)
        × Every (λ x. c.less (max_loop c vals m) x ≡ false) vals
        × ((max_loop c vals m ≡ m) ⊎ Member (max_loop c vals m) vals)
  unfolding max_loop
  max_loop-extreme [] m = (order.irreflexive m, tt, inl refl)
  max_loop-extreme (v ∷ vals) m =
      let m' = if c.greater v m then v else m in
      let (above_m, above_v, from) = larger v m in
      let (above, all, came) = max_loop-extreme vals m' in
      let r = max_loop c vals m' in
      (
        order.bounded m m' r above_m above,
        (order.bounded v m' r above_v above, all),
        elim came [
          | inl e ↦ elim from [ inl f ↦ inl (e ∙ f) | inr f ↦ inr (inl (e ∙ f)) ]
          | inr later ↦ inr (inr later)
        ],
      )

  min_loop-extreme :
      (vals : List A) (m n : A)
      → (c.less n (min_max_loop c vals m n).1 ≡ false)
        × Every (λ x. c.less x (min_max_loop c vals m n).1 ≡ false) vals
        × (((min_max_loop c vals m n).1 ≡ n) ⊎ Member (min_max_loop c vals m n).1 vals)
  unfolding min_max_loop
  min_loop-extreme [] m n = (order.irreflexive n, tt, inl refl)
  min_loop-extreme (v ∷ vals) m n =
      let m' = if c.greater v m then v else m in
      let n' = if c.less v n then v else n in
      let (below_n, below_v, from) = smaller v n in
      let (below, all, came) = min_loop-extreme vals m' n' in
      let r = (min_max_loop c vals m' n').1 in
      (
        order.bounded r n' n below below_n,
        (order.bounded r n' v below below_v, all),
        elim came [
          | inl e ↦ elim from [ inl f ↦ inl (e ∙ f) | inr f ↦ inr (inl (e ∙ f)) ]
          | inr later ↦ inr (inr later)
        ],
      )

  min_max_loop-max : (vals : List A) (m n : A) → (min_max_loop c vals m n).0 ≡ max_loop c vals m
  unfolding min_max_loop max_loop
  min_max_loop-max [] m n = refl
  min_max_loop-max (v ∷ vals) m n =
      min_max_loop-max vals (if c.greater v m then v else m) (if c.less v n then v else n)

  -- Where the operators are those of an order, `min_max` of one value or more returns one of the values
  -- that is below none, which is what `max` returns too, and one that is above none.
  pub min_max-extreme :
      (v : A) (vals : List A)
      → (hi lo : A) × (min_max c (v ∷ vals) ≡ done (hi, lo))
        × (max c (v ∷ vals) ≡ done hi)
        × Every (λ x. (c.less hi x ≡ false) × (c.less x lo ≡ false)) (v ∷ vals)
        × Member hi (v ∷ vals)
        × Member lo (v ∷ vals)
  unfolding min_max max
  min_max-extreme v vals =
      let (above_v, above, hi_from) = max_loop-extreme (v ∷ vals) v in
      let (below_v, below, lo_from) = min_loop-extreme (v ∷ vals) v v in
      let same = min_max_loop-max (v ∷ vals) v v in
      (
        max_loop c (v ∷ vals) v,
        (min_max_loop c (v ∷ vals) v v).1,
        ap (λ hi. done (hi, (min_max_loop c (v ∷ vals) v v).1)) same,
        refl,
        both (v ∷ vals) _ _ above below,
        found hi_from,
        found lo_from,
      )
    where
      both :
          (xs : List A) (hi lo : A)
          → Every (λ x. c.less hi x ≡ false) xs
          → Every (λ x. c.less x lo ≡ false) xs
          → Every (λ x. (c.less hi x ≡ false) × (c.less x lo ≡ false)) xs
      both [] hi lo h k = tt
      both (x ∷ xs) hi lo h k = ((h.0, k.0), both xs hi lo h.1 k.1)

      found : {r : A} → (r ≡ v) ⊎ Member r (v ∷ vals) → Member r (v ∷ vals)
      found (inl e) = inl e
      found (inr h) = h
