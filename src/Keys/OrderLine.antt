-- ===== src/Keys/OrderLine.antt =====
-- benchmark/real_world/tpcc.h: `OL_key` as the wrappers of src/kv store it, and as a scan casts it back.
use mathlib.Core.List.{reverse-reverse}
use sidle_baselines.Base.{
  ℕ, zero, suc, ◌+◌, ◌<◌, ◌^◌, ◌≡◌, refl, ap, ◌∙◌, List, [], ◌∷◌, ◌++◌, reverse, length, take, drop,
  if◌then◌else◌, arith,
}
use sidle_baselines.Bytes.{
  ByteOrder, little, big, store, load, load-store, length-store, little_endian,
  little_endian-little, little_endian-big,
}
use sidle_baselines.Keys.Packed.{image, to_str_key}
use sidle_baselines.Keys.Structs.{OlKey, ol_struct}
use sidle_baselines.Keys.Stored.{StoredKey}

-- `*(OL_key *)bytes`
unfoldable pub ol_cast : ByteOrder → List ℕ → OlKey
ol_cast order bs = record {
  ol_number = load order (take 1 bs);
  ol_o_id = load order (take 4 (drop 1 bs));
  ol_d_id = load order (take 1 (drop 5 bs));
  ol_w_id = load order (take 2 (drop 6 bs));
}

-- `((OL_key *)bytes)->to_normal_key()`, which turns the bytes round again
unfoldable pub ol_restored : ByteOrder → List ℕ → OlKey
unfolding ol_cast
ol_restored order bs = ol_cast order (if little_endian order then reverse bs else bs)

pub record FitsOl (k : OlKey) : Type 0 where
  pub number_fits : k.ol_number < 2 ^ 8
  pub o_id_fits : k.ol_o_id < 2 ^ 32
  pub d_id_fits : k.ol_d_id < 2 ^ 8
  pub w_id_fits : k.ol_w_id < 2 ^ 16

take-store :
    (order : ByteOrder) (n x : ℕ) (rest : List ℕ)
    → take n (store order n x ++ rest) ≡ store order n x
take-store order n x rest = take-prefix n (store order n x) rest (length-store order n x)
  where
    take-prefix : (k : ℕ) (xs ys : List ℕ) → length xs ≡ k → take k (xs ++ ys) ≡ xs
    take-prefix zero [] ys e = refl
    take-prefix zero (x ∷ xs) ys e = absurd (omega arith)
    take-prefix (suc k) [] ys e = absurd (omega arith)
    take-prefix (suc k) (x ∷ xs) ys e = ap (λ zs. x ∷ zs) (take-prefix k xs ys (omega arith))

drop-store :
    (order : ByteOrder) (n m x : ℕ) (rest : List ℕ)
    → drop (n + m) (store order n x ++ rest) ≡ drop m rest
drop-store order n m x rest = drop-prefix n (store order n x) (length-store order n x)
  where
    drop-prefix : (k : ℕ) (xs : List ℕ) → length xs ≡ k → drop (k + m) (xs ++ rest) ≡ drop m rest
    drop-prefix zero [] e = ap (λ j. drop j rest) (omega arith)
    drop-prefix zero (x ∷ xs) e = absurd (omega arith)
    drop-prefix (suc k) [] e = absurd (omega arith)
    drop-prefix (suc k) (x ∷ xs) e =
        let moved : suc k + m ≡ suc (k + m) = omega arith in
        ap (λ j. drop j (x ∷ xs ++ rest)) moved ∙ drop-prefix k xs (omega arith)

-- the field that n bytes hold
field-read :
    (order : ByteOrder) (n x : ℕ) (rest bs : List ℕ)
    → x < 256 ^ n
    → bs ≡ store order n x ++ rest
    → load order (take n bs) ≡ x
field-read order n x rest bs fits e = rw (e, take-store order n x rest) (load-store order n x fits)

ol_cast-image :
    (order : ByteOrder) (k : OlKey)
    → FitsOl k
    → ol_cast order (image order (ol_struct.layout k)) ≡ k
unfolding ol_cast image
ol_cast-image order k fits =
    let w_id : List ℕ = store order 2 k.ol_w_id ++ [] in
    let d_id : List ℕ = store order 1 k.ol_d_id ++ w_id in
    let o_id : List ℕ = store order 4 k.ol_o_id ++ d_id in
    let row : List ℕ = store order 1 k.ol_number ++ o_id in
    let at_o : drop 1 row ≡ o_id = drop-store order 1 0 k.ol_number o_id in
    let at_d : drop 5 row ≡ d_id =
      drop-store order 1 4 k.ol_number o_id ∙ drop-store order 4 0 k.ol_o_id d_id in
    let at_w : drop 6 row ≡ w_id =
      drop-store order 1 5 k.ol_number o_id
      ∙ (drop-store order 4 1 k.ol_o_id d_id ∙ drop-store order 1 0 k.ol_d_id w_id) in
    λ i. record {
      ol_number = field-read order 1 k.ol_number o_id row fits.number_fits refl i;
      ol_o_id = field-read order 4 k.ol_o_id d_id (drop 1 row) fits.o_id_fits at_o i;
      ol_d_id = field-read order 1 k.ol_d_id w_id (drop 5 row) fits.d_id_fits at_d i;
      ol_w_id = field-read order 2 k.ol_w_id [] (drop 6 row) fits.w_id_fits at_w i;
    }

pub ol_restored-to_str_key :
    (order : ByteOrder) (k : OlKey) → FitsOl k → ol_restored order (to_str_key order k) ≡ k
unfolding ol_restored to_str_key
ol_restored-to_str_key little k fits =
    rw (little_endian-little, reverse-reverse) (ol_cast-image little k fits)
ol_restored-to_str_key big k fits = rw little_endian-big (ol_cast-image big k fits)

abbrev pub ol_stored_key : ByteOrder → StoredKey OlKey
ol_stored_key order = record {
  Fits = FitsOl;
  stored = to_str_key order;
  restored = ol_restored order;
  restored-stored = ol_restored-to_str_key order;
}
