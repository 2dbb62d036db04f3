-- ===== src/Examples/KeyRuns.antt =====
-- The keys of the indexes at small values.
use Prim.Native.Nat.{compare}
use sidle_baselines.Base.{
  ℕ, ◌-◌, ◌*◌, ◌/◌, ◌^◌, ◌≡◌, refl, List, [], ◌∷◌, replicate, length, ltb, if◌then◌else◌, arith,
}
use sidle_baselines.Memory.{done}
use sidle_baselines.Bytes.{little, bytes, store, load, word, memcmp, little_endian}
use sidle_baselines.Keys.IntKey
use sidle_baselines.Keys.IntKey.{Key, to_str_key, to_normal_key}
use sidle_baselines.Keys.StrKey.{to_model_words, keycmp, model_key_size, unit_words, chunk_word}
use sidle_baselines.Keys.StrKeyOrder.{to_model_words-memcmp, AreExact, words}
use sidle_baselines.Keys.Packed.{smaller, less}
use sidle_baselines.Keys.Packed
use sidle_baselines.Keys.Structs.{
  ol_key, ol_struct, c_struct, o_struct, s_struct, d_struct, h_struct,
}
use sidle_baselines.Keys.StructsOrder.{ol_key-order}

abbrev first : Key
first = record { key = 255 }

abbrev second : Key
second = record { key = 256 }

memcmp-to_str_key_example :
    memcmp
      (store little 8 (to_str_key little first).key)
      (store little 8 (to_str_key little second).key)
    ≡ compare 255 256
memcmp-to_str_key_example = IntKey.memcmp-to_str_key little first second (omega arith) (omega arith)

to_normal_key-to_str_key_example : to_normal_key little (to_str_key little second) ≡ second
to_normal_key-to_str_key_example = IntKey.to_normal_key-to_str_key little second (omega arith)

str_key_of_one : (to_str_key little (record { key = 1 })).key ≡ 0x100000000000000
unfolding to_str_key little_endian store load bytes word
str_key_of_one = refl

-- twelve bytes: a whole unit, and one of four bytes
abbrev left_string : List ℕ
left_string = 0 ∷ replicate 11 1

abbrev right_string : List ℕ
right_string = 0 ∷ replicate 11 2

-- a cast that is exact below 2^53, and rounds down above
abbrev rounded : ℕ → ℕ
rounded n = if ltb n (2 ^ 53) then n else n / 2048 * 2048

left_exact : AreExact (words little (model_key_size 12 - 1) left_string)
unfolding unit_words chunk_word load word little_endian model_key_size
left_exact = (omega arith, (omega arith, tt))

right_exact : AreExact (words little (model_key_size 12 - 1) right_string)
unfolding unit_words chunk_word load word little_endian model_key_size
right_exact = (omega arith, (omega arith, tt))

to_model_words-memcmp_example :
    (us : List ℕ) × (vs : List ℕ) × (to_model_words rounded little 12 left_string ≡ done us)
    × (to_model_words rounded little 12 right_string ≡ done vs)
    × (length us ≡ model_key_size 12)
    × (keycmp us vs ≡ memcmp left_string right_string)
to_model_words-memcmp_example =
    to_model_words-memcmp rounded (λ n small. ground arith) little 12 left_string right_string
      (omega arith) refl refl refl (omega arith) (omega arith) left_exact right_exact

ol_key-order_example :
    (less little (ol_key 1 2 3 15) (ol_key 1 2 4 1)
      ≡ smaller (1 ∷ 2 ∷ 3 ∷ 15 ∷ []) (1 ∷ 2 ∷ 4 ∷ 1 ∷ []))
    × (memcmp
          (Packed.to_str_key little (ol_key 1 2 3 15))
          (Packed.to_str_key little (ol_key 1 2 4 1))
        ≡ keycmp (1 ∷ 2 ∷ 3 ∷ 15 ∷ []) (1 ∷ 2 ∷ 4 ∷ 1 ∷ []))
ol_key-order_example =
    ol_key-order 1 2 3 15 1 2 4 1 (omega arith) (omega arith) (omega arith) (omega arith)
      (omega arith) (omega arith) (omega arith) (omega arith)
