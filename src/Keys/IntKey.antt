-- ===== src/Keys/IntKey.antt =====
-- benchmark/synthetic/micro_base.h: `Key`, a uint64_t, and the form of it that the indexes hold.
use Prim.Native.Nat.{compare}
use mathlib.Core.List.{reverse-reverse}
use sidle_baselines.Base.{
  ℕ, ◌-◌, ◌%◌, ◌^◌, ◌<◌, ◌≡◌, sym, ap, ◌∙◌, Bool, not, List, [], ◌∷◌, reverse, ltb, leb, ◌==◌,
  if◌then◌else◌,
}
use sidle_baselines.Bytes.{
  ByteOrder, little, big, bytes, store, load, memcmp, little_endian, store-load, load-store,
  length-store, store-IsBytes, length-bytes, bytes-IsBytes, word-bytes, memcmp-reverse,
  little_endian-little, little_endian-big, store-little, store-big, length-reverse, IsBytes-reverse,
}

pub record Key : Type 0 where
  pub key : ℕ

abbrev pub uint64_mod : ℕ
uint64_mod = 2 ^ 64

-- `Key()`, `Key(key)`, `max()` and `min()`
abbrev pub default_key : Key
default_key = record { key = 0 }

abbrev pub make : ℕ → Key
make key = record { key = key % uint64_mod }

abbrev pub max_key : Key
max_key = make (uint64_mod - 1)

abbrev pub min_key : Key
min_key = make 0

unfoldable pub to_model_key : {F : Type 0} → (ℕ → F) → Key → List F
to_model_key feat k = feat k.key ∷ []

-- On a little-endian machine the bytes in the other order.
unfoldable pub to_str_key : ByteOrder → Key → Key
to_str_key order k =
    if little_endian order then record { key = load order (reverse (store order 8 k.key)) } else k

unfoldable pub to_wh_key : ByteOrder → Key → Key
to_wh_key order k = to_str_key order k

unfoldable pub to_normal_key : ByteOrder → Key → Key
to_normal_key order k = to_str_key order k

-- the friend operators < > >= <= == !=
unfoldable pub less : Key → Key → Bool
less l r = ltb l.key r.key

unfoldable pub greater : Key → Key → Bool
greater l r = ltb r.key l.key

unfoldable pub greater_equal : Key → Key → Bool
greater_equal l r = leb r.key l.key

unfoldable pub less_equal : Key → Key → Bool
less_equal l r = leb l.key r.key

unfoldable pub equal : Key → Key → Bool
equal l r = l.key == r.key

unfoldable pub unequal : Key → Key → Bool
unequal l r = not (l.key == r.key)

-- The key as it stands in memory after `to_str_key`: its bytes, the highest first.
pub str_key_image :
    (order : ByteOrder) (k : Key) → store order 8 (to_str_key order k).key ≡ reverse (bytes 8 k.key)
unfolding to_str_key
str_key_image little k = rw little_endian-little (
    store-load little 8 (reverse (store little 8 k.key))
      (length-reverse (store little 8 k.key) ∙ length-store little 8 k.key)
      (IsBytes-reverse (store little 8 k.key) (store-IsBytes little 8 k.key))
    ∙ ap reverse (store-little 8 k.key))
str_key_image big k = rw little_endian-big (store-big 8 k.key)

-- On either kind of machine the bytes of two 64-bit keys after `to_str_key` compare under `memcmp` as the
-- numbers do.
pub memcmp-to_str_key :
    (order : ByteOrder) (a b : Key)
    → a.key < uint64_mod
    → b.key < uint64_mod
    → memcmp (store order 8 (to_str_key order a).key) (store order 8 (to_str_key order b).key)
      ≡ compare a.key b.key
memcmp-to_str_key order a b ha hb = rw (
  str_key_image order a,
  str_key_image order b,
  memcmp-reverse (bytes 8 a.key) (bytes 8 b.key) (length-bytes 8 a.key ∙ sym (length-bytes 8 b.key))
      (bytes-IsBytes 8 a.key) (bytes-IsBytes 8 b.key),
  word-bytes 8 a.key ha,
  word-bytes 8 b.key hb,
)

-- On either kind of machine `to_normal_key` gives back the 64-bit key that `to_str_key` was given.
pub to_normal_key-to_str_key :
    (order : ByteOrder) (k : Key)
    → k.key < uint64_mod
    → to_normal_key order (to_str_key order k) ≡ k
unfolding to_normal_key to_str_key
to_normal_key-to_str_key little k h = rw (
  little_endian-little,
  store-load little 8 (reverse (store little 8 k.key))
      (length-reverse (store little 8 k.key) ∙ length-store little 8 k.key)
      (IsBytes-reverse (store little 8 k.key) (store-IsBytes little 8 k.key)),
  reverse-reverse (store little 8 k.key),
  load-store little 8 k.key h,
)
to_normal_key-to_str_key big k h = rw little_endian-big
