-- ===== src/Tpcc/Credits.antt =====
-- benchmark/real_world/tpcc.cpp: the credit of the customers, which no transaction changes.
use sidle_baselines.Base.{
  ℕ, ◌≡◌, ◌≢◌, sym, ap, ◌∙◌, List, Bool-cases, true, false, Option, some, inl, inr, arith,
}
use sidle_baselines.Bytes.{little}
use sidle_baselines.Bytes.Equality.{same_bytes, same_bytes_refl, same_bytes-true}
use sidle_baselines.Keys.Packed.{to_str_key}
use sidle_baselines.Keys.Structs.{CKey, c_struct}
use sidle_baselines.Masstree.{MassTree, get}
use sidle_baselines.Tpcc.Values.{CVal}
use sidle_baselines.Tpcc.Store.{Unassigned, or_unassigned}
use sidle_baselines.Tpcc.Payment.{is_bad_credit}

same_bytes-apart : (xs ys : List ℕ) → same_bytes xs ys ≡ false → xs ≢ ys
same_bytes-apart xs ys differ e =
    let at : same_bytes xs ys ≡ true = sym (ap (same_bytes xs) e) ∙ same_bytes_refl xs in
    ground (arith, at, differ)

module _ {Tree : Type 0 → Type 0} {F : Type 0} (m : MassTree Tree) (blank : Unassigned F) where
  -- what a transaction reads as the customer's credit
  abbrev pub credit_of : Tree (CVal F) → CKey → List ℕ
  credit_of t k = (or_unassigned (get m little t k) blank.v_c).c_credit

  -- No customer has bad credit, nor has a row that was never assigned.
  abbrev pub HasGoodCredit : Tree (CVal F) → Type 0
  HasGoodCredit t = (k : CKey) → is_bad_credit (credit_of t k) ≡ false

  abbrev pub KeepsCredits : Tree (CVal F) → Tree (CVal F) → Type 0
  KeepsCredits t t' = (k : CKey) → credit_of t' k ≡ credit_of t k

  get-same_bytes :
      (t : Tree (CVal F)) (k j : CKey)
      → to_str_key little k ≡ to_str_key little j
      → get m little t j ≡ get m little t k
  unfolding get
  get-same_bytes t k j same = ap (m.run_get1 t) (sym same)

  -- A customer's row that is written with the credit that it had keeps the credits.
  pub written-KeepsCredits :
      (t t' : Tree (CVal F)) (k : CKey) (v : CVal F)
      → get m little t' k ≡ some v
      → v.c_credit ≡ credit_of t k
      → ((j : CKey)
          → to_str_key little k ≢ to_str_key little j
          → get m little t' j ≡ get m little t j)
      → KeepsCredits t t'
  written-KeepsCredits t t' k v at same others j =
      let credit : Option (CVal F) → List ℕ = λ r. (or_unassigned r blank.v_c).c_credit in
      elim (Bool-cases (same_bytes (to_str_key little k) (to_str_key little j))) [
        | inl here ↦
            let bytes : to_str_key little k ≡ to_str_key little j = same_bytes-true _ _ here in
            let found : get m little t' j ≡ some v = get-same_bytes t' k j bytes ∙ at in
            ap credit found ∙ (same ∙ ap credit (sym (get-same_bytes t k j bytes)))
        | inr apart ↦ ap credit (others j (same_bytes-apart _ _ apart))
      ]

  pub KeepsCredits-HasGoodCredit :
      (t t' : Tree (CVal F)) → KeepsCredits t t' → HasGoodCredit t → HasGoodCredit t'
  KeepsCredits-HasGoodCredit t t' kept good k = rw (kept k) (good k)
