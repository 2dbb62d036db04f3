-- ===== src/Keys/Stored.antt =====
-- What the wrappers of src/kv use of a key type: the bytes that a key is stored as, and the key that stored
-- bytes are cast back to. benchmark/synthetic/micro_base.h provides it for `Key`.
use native.Mathlib.Nat.{pow-succ'}
use sidle_baselines.Base.{ℕ, ◌^◌, reverse, [], ◌∷◌, arith, ◌<◌, ◌≡◌, ◌∙◌, List, length}
use sidle_baselines.Bytes.{
  ByteOrder, little, big, IsBytes, word, length-reverse, IsBytes-reverse, length-store,
  store-IsBytes, little_endian-little, little_endian-big, store, load, load-store,
}
use sidle_baselines.Keys.IntKey.{
  Key, uint64_mod, to_normal_key-to_str_key, to_wh_key, to_normal_key, to_str_key,
}

pub record StoredKey (K : Type 0) : Type 1 where
  -- what the type can hold
  pub Fits : K → Type 0
  -- the bytes of `to_wh_key()`, which for every key type are those of `to_str_key()`
  pub stored : K → List ℕ
  -- `((K *)bytes)->to_normal_key()`
  pub restored : List ℕ → K
  pub restored-stored : (k : K) → Fits k → restored (stored k) ≡ k

word_bound : (bs : List ℕ) → IsBytes bs → word bs < 256 ^ length bs
unfolding word
word_bound [] h = omega arith
word_bound (b ∷ bs) h = rw (pow-succ' 256 (length bs)) (omega (arith, word_bound bs h.1, h.0))

to_str_key_bound :
    (order : ByteOrder) (k : Key) → k.key < uint64_mod → (to_str_key order k).key < uint64_mod
unfolding to_str_key load
to_str_key_bound little k h =
    let bs = reverse (store little 8 k.key) in
    let long = length-reverse (store little 8 k.key) ∙ length-store little 8 k.key in
    rw little_endian-little (
      omega (
        arith,
        long,
        rw long at (word_bound bs (IsBytes-reverse _ (store-IsBytes little 8 k.key))),
      ))
to_str_key_bound big k h = rw little_endian-big h

pub restored_int_key :
    (order : ByteOrder) (k : Key)
    → k.key < uint64_mod
    → to_normal_key order (record { key = load order (store order 8 (to_wh_key order k).key) }) ≡ k
unfolding to_wh_key
restored_int_key order k h =
    rw (load-store order 8 (to_str_key order k).key (to_str_key_bound order k h))
      (to_normal_key-to_str_key order k h)

-- `Key`, on a machine of the byte order
abbrev pub int_key : ByteOrder → StoredKey Key
int_key order = record {
  Fits = λ k. k.key < uint64_mod;
  stored = λ k. store order 8 (to_wh_key order k).key;
  restored = λ bs. to_normal_key order (record { key = load order bs });
  restored-stored = λ k h. restored_int_key order k h;
}
