-- ===== src/Examples/IndexRuns.antt =====
-- The wrappers of ART, PACTree and SMART at small instances of their libraries.
use sidle_baselines.Base.{
  ℕ, ◌≡◌, ◌≢◌, true, false, none, some, List, [], ◌==◌, if◌then◌else◌, leb, length, take,
}
use sidle_baselines.Bytes.{little, load}
use sidle_baselines.Memory.{done, fault, out_of_bounds}
use sidle_baselines.Keys.IntKey.{Key}
use sidle_baselines.Keys.Stored.{StoredKey, int_key}
use sidle_baselines.Indexes.Value.{Value}
use sidle_baselines.Indexes.Art.{insert-reads_key}
use sidle_baselines.Indexes.Art
use sidle_baselines.Indexes.Pactree.{insert-keeps, kept}
use sidle_baselines.Indexes.Pactree
use sidle_baselines.Indexes.Smart.{SmartKv, insert-search, got}
use sidle_baselines.Indexes.Smart
use sidle_baselines.Examples.Libraries.{
  Strings, string_art, string_art-IsKeySet, Numbers, number_pactree, number_pactree-IsMap,
  number_smart, number_smart-IsMap,
}

abbrev key : StoredKey Key
key = int_key little

abbrev seven : Key
seven = record { key = 7 }

abbrev value : ℕ → Value
value n = record { padding = []; val = n }

abbrev no_strings : Strings
no_strings s = false

abbrev as_value : List ℕ → ℕ
as_value bs = load little bs

insert-reads_key_example :
    (t' : Strings) × (Art.insert string_art {V = ℕ} key no_strings seven 5 ≡ (true, t'))
    × (Art.get string_art key 4 as_value t' seven ≡ (
        if leb 4 (length (key.stored seven))
        then done (some (as_value (take 4 (key.stored seven))))
        else fault out_of_bounds))
    × ((j : Key)
        → key.stored seven ≢ key.stored j
        → Art.get string_art key 4 as_value t' j ≡ Art.get string_art key 4 as_value no_strings j)
insert-reads_key_example =
    insert-reads_key string_art string_art-IsKeySet key 4 as_value no_strings seven 5

-- a map that has 70 at 7
abbrev one_number : Numbers
one_number k = if k == 7 then some 70 else none

insert-keeps_example :
    (t' : Numbers) × (Pactree.insert number_pactree one_number seven (value 5) ≡ (true, t'))
    × (Pactree.get number_pactree t' seven (value 0) ≡ (true, value 70))
    × ((j : Key) (u : ℕ)
        → 7 ≢ j.key
        → one_number j.key ≡ some u
        → Pactree.get number_pactree t' j (value 0) ≡ (true, value u))
unfolding number_pactree-IsMap
insert-keeps_example =
    insert-keeps number_pactree number_pactree-IsMap one_number seven (value 5) (value 0)

abbrev kv : SmartKv Numbers ℕ
kv = record { tree = one_number; dsm = 1 }

insert-search_example :
    (kv' : SmartKv Numbers ℕ) × (Smart.insert number_smart kv seven (value 5) ≡ (true, kv'))
    × (Smart.get number_smart 99 kv' seven (value 0) ≡ (true, value 5))
    × ((j : Key)
        → 7 ≢ j.key
        → Smart.get number_smart 99 kv' j (value 0) ≡ got (one_number j.key) 99 (value 0))
unfolding number_smart-IsMap
insert-search_example =
    insert-search number_smart number_smart-IsMap kv seven (value 5) (value 0) 99
