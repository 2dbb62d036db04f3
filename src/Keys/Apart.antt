-- ===== src/Keys/Apart.antt =====
-- benchmark/real_world/tpcc.h: keys of different ids have different bytes.
use Prim.Native.Nat.{Ordering}
use sidle_baselines.Base.{ℕ, ◌^◌, ◌<◌, ◌≡◌, ◌≢◌, ◌⊎◌, refl, sym, ap, ◌∙◌, List, [], ◌∷◌, arith}
use sidle_baselines.Bytes.{little, memcmp}
use sidle_baselines.Keys.StrKey.{keycmp}
use sidle_baselines.Keys.Packed.{to_str_key}
use sidle_baselines.Keys.Structs.{no_key, no_struct, o_key, o_struct, ol_struct}
use sidle_baselines.Keys.StructsOrder.{o_key-order}
use sidle_baselines.Keys.TablesOrder.{no_key-order}

memcmp_refl : (xs : List ℕ) → memcmp xs xs ≡ Ordering.eq
unfolding memcmp
memcmp_refl [] = refl
memcmp_refl (x ∷ xs) = ground (arith, memcmp_refl xs)

pub memcmp-apart : (xs ys : List ℕ) → memcmp xs ys ≢ Ordering.eq → xs ≢ ys
memcmp-apart xs ys differ e = differ (sym (ap (memcmp xs) e) ∙ memcmp_refl xs)

module _ (w d o w' d' o' : ℕ) (w_fits : w < 2 ^ 16) (d_fits : d < 2 ^ 8) (o_fits : o < 2 ^ 32)
    (w_fits' : w' < 2 ^ 16) (d_fits' : d' < 2 ^ 8) (o_fits' : o' < 2 ^ 32) where
  ids_apart :
      (w ≢ w') ⊎ ((d ≢ d') ⊎ (o ≢ o')) → keycmp (w ∷ d ∷ o ∷ []) (w' ∷ d' ∷ o' ∷ []) ≢ Ordering.eq
  unfolding keycmp
  ids_apart differ e = ground (arith, e)

  pub no_key_apart :
      (w ≢ w') ⊎ ((d ≢ d') ⊎ (o ≢ o'))
      → to_str_key little (no_key w d o) ≢ to_str_key little (no_key w' d' o')
  no_key_apart differ =
      memcmp-apart (to_str_key little (no_key w d o)) (to_str_key little (no_key w' d' o')) (
        rw ((no_key-order w d o w' d' o' w_fits d_fits o_fits w_fits' d_fits' o_fits').1)
          (ids_apart differ))

  pub o_key_apart :
      (w ≢ w') ⊎ ((d ≢ d') ⊎ (o ≢ o'))
      → to_str_key little (o_key w d o) ≢ to_str_key little (o_key w' d' o')
  o_key_apart differ =
      memcmp-apart (to_str_key little (o_key w d o)) (to_str_key little (o_key w' d' o')) (
        rw ((o_key-order w d o w' d' o' w_fits d_fits o_fits w_fits' d_fits' o_fits').1)
          (ids_apart differ))
