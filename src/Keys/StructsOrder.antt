-- ===== src/Keys/StructsOrder.antt =====
-- benchmark/real_world/tpcc.h: the order of the key structs on a little-endian machine, as numbers
-- of 64 bits, as bytes after `to_str_key`, and as the ids in them.
use sidle_baselines.Base.{ℕ, ◌^◌, ◌<◌, ◌≡◌, [], ◌∷◌, arith}
use sidle_baselines.Bytes.{little, memcmp}
use sidle_baselines.Keys.StrKey.{keycmp}
use sidle_baselines.Keys.Packed.{smaller, to_str_key, less}
use sidle_baselines.Keys.PackedOrder.{less-compare_fields, memcmp-to_str_key}
use sidle_baselines.Keys.Structs.{
  ol_key, ol_struct, c_key, c_struct, o_key, o_struct, no_struct, d_struct, s_struct, s_data_struct,
  order_cid_index_struct, w_struct, i_struct, h_key, h_struct, h_less,
}

-- Order lines, by warehouse, district, order and number of the line: for ids that fit their fields,
-- `operator<` is the lexicographic order of the ids, and `memcmp` of the `to_str_key` forms has its sign.
pub ol_key-order :
    (ol_w_id ol_d_id ol_o_id ol_number ol_w_id' ol_d_id' ol_o_id' ol_number' : ℕ)
    → ol_w_id < 2 ^ 16
    → ol_d_id < 2 ^ 8
    → ol_o_id < 2 ^ 32
    → ol_number < 2 ^ 8
    → ol_w_id' < 2 ^ 16
    → ol_d_id' < 2 ^ 8
    → ol_o_id' < 2 ^ 32
    → ol_number' < 2 ^ 8
    → (less little
          (ol_key ol_w_id ol_d_id ol_o_id ol_number)
          (ol_key ol_w_id' ol_d_id' ol_o_id' ol_number')
        ≡ smaller
            (ol_w_id ∷ ol_d_id ∷ ol_o_id ∷ ol_number ∷ [])
            (ol_w_id' ∷ ol_d_id' ∷ ol_o_id' ∷ ol_number' ∷ []))
      × (memcmp
            (to_str_key little (ol_key ol_w_id ol_d_id ol_o_id ol_number))
            (to_str_key little (ol_key ol_w_id' ol_d_id' ol_o_id' ol_number'))
          ≡ keycmp
              (ol_w_id ∷ ol_d_id ∷ ol_o_id ∷ ol_number ∷ [])
              (ol_w_id' ∷ ol_d_id' ∷ ol_o_id' ∷ ol_number' ∷ []))
unfolding smaller keycmp
ol_key-order ol_w_id ol_d_id ol_o_id ol_number ol_w_id' ol_d_id' ol_o_id' ol_number' h0 h1 h2 h3 h4
      h5 h6 h7 =
    (
      ground (
        arith,
        less-compare_fields (ol_key ol_w_id ol_d_id ol_o_id ol_number)
            (ol_key ol_w_id' ol_d_id' ol_o_id' ol_number') (omega arith) (omega arith)
            (omega arith),
      ),
      ground (
        arith,
        memcmp-to_str_key (ol_key ol_w_id ol_d_id ol_o_id ol_number)
            (ol_key ol_w_id' ol_d_id' ol_o_id' ol_number') (omega arith) (omega arith)
            (omega arith),
      ),
    )

-- Customers, by warehouse, district and number: for ids that fit their fields, `operator<` is the
-- lexicographic order of the ids, and `memcmp` of the `to_str_key` forms has its sign.
pub c_key-order :
    (c_id c_d_id c_w_id c_id' c_d_id' c_w_id' : ℕ)
    → c_w_id < 2 ^ 16
    → c_d_id < 2 ^ 8
    → c_id < 2 ^ 16
    → c_w_id' < 2 ^ 16
    → c_d_id' < 2 ^ 8
    → c_id' < 2 ^ 16
    → (less little (c_key c_id c_d_id c_w_id) (c_key c_id' c_d_id' c_w_id')
        ≡ smaller (c_w_id ∷ c_d_id ∷ c_id ∷ []) (c_w_id' ∷ c_d_id' ∷ c_id' ∷ []))
      × (memcmp
            (to_str_key little (c_key c_id c_d_id c_w_id))
            (to_str_key little (c_key c_id' c_d_id' c_w_id'))
          ≡ keycmp (c_w_id ∷ c_d_id ∷ c_id ∷ []) (c_w_id' ∷ c_d_id' ∷ c_id' ∷ []))
unfolding smaller keycmp
c_key-order c_id c_d_id c_w_id c_id' c_d_id' c_w_id' h0 h1 h2 h3 h4 h5 = (
  ground (
    arith,
    less-compare_fields (c_key c_id c_d_id c_w_id) (c_key c_id' c_d_id' c_w_id') (omega arith)
        (omega arith) (omega arith),
  ),
  ground (
    arith,
    memcmp-to_str_key (c_key c_id c_d_id c_w_id) (c_key c_id' c_d_id' c_w_id') (omega arith)
        (omega arith) (omega arith),
  ),
)

-- Orders, by warehouse, district and number: for ids that fit their fields, `operator<` is the
-- lexicographic order of the ids, and `memcmp` of the `to_str_key` forms has its sign.
pub o_key-order :
    (o_w_id o_d_id o_id o_w_id' o_d_id' o_id' : ℕ)
    → o_w_id < 2 ^ 16
    → o_d_id < 2 ^ 8
    → o_id < 2 ^ 32
    → o_w_id' < 2 ^ 16
    → o_d_id' < 2 ^ 8
    → o_id' < 2 ^ 32
    → (less little (o_key o_w_id o_d_id o_id) (o_key o_w_id' o_d_id' o_id')
        ≡ smaller (o_w_id ∷ o_d_id ∷ o_id ∷ []) (o_w_id' ∷ o_d_id' ∷ o_id' ∷ []))
      × (memcmp
            (to_str_key little (o_key o_w_id o_d_id o_id))
            (to_str_key little (o_key o_w_id' o_d_id' o_id'))
          ≡ keycmp (o_w_id ∷ o_d_id ∷ o_id ∷ []) (o_w_id' ∷ o_d_id' ∷ o_id' ∷ []))
unfolding smaller keycmp
o_key-order o_w_id o_d_id o_id o_w_id' o_d_id' o_id' h0 h1 h2 h3 h4 h5 = (
  ground (
    arith,
    less-compare_fields (o_key o_w_id o_d_id o_id) (o_key o_w_id' o_d_id' o_id') (omega arith)
        (omega arith) (omega arith),
  ),
  ground (
    arith,
    memcmp-to_str_key (o_key o_w_id o_d_id o_id) (o_key o_w_id' o_d_id' o_id') (omega arith)
        (omega arith) (omega arith),
  ),
)

-- History, twelve bytes long and compared by its model key: by warehouse, district and date, then
-- the customer's warehouse, district and number. For values that fit their fields, `operator<` is the
-- lexicographic order of these, and `memcmp` of the `to_str_key` forms has its sign.
pub h_key-order :
    (h_w_id h_d_id h_c_w_id h_c_d_id h_c_id h_date h_w_id' h_d_id' h_c_w_id' h_c_d_id' h_c_id'
      h_date' : ℕ)
    → h_w_id < 2 ^ 16
    → h_d_id < 2 ^ 8
    → h_date < 2 ^ 32
    → h_c_w_id < 2 ^ 16
    → h_c_d_id < 2 ^ 8
    → h_c_id < 2 ^ 16
    → h_w_id' < 2 ^ 16
    → h_d_id' < 2 ^ 8
    → h_date' < 2 ^ 32
    → h_c_w_id' < 2 ^ 16
    → h_c_d_id' < 2 ^ 8
    → h_c_id' < 2 ^ 16
    → (h_less
          (h_key h_w_id h_d_id h_c_w_id h_c_d_id h_c_id h_date)
          (h_key h_w_id' h_d_id' h_c_w_id' h_c_d_id' h_c_id' h_date')
        ≡ smaller
            (h_w_id ∷ h_d_id ∷ h_date ∷ h_c_w_id ∷ h_c_d_id ∷ h_c_id ∷ [])
            (h_w_id' ∷ h_d_id' ∷ h_date' ∷ h_c_w_id' ∷ h_c_d_id' ∷ h_c_id' ∷ []))
      × (memcmp
            (to_str_key little (h_key h_w_id h_d_id h_c_w_id h_c_d_id h_c_id h_date))
            (to_str_key little (h_key h_w_id' h_d_id' h_c_w_id' h_c_d_id' h_c_id' h_date'))
          ≡ keycmp
              (h_w_id ∷ h_d_id ∷ h_date ∷ h_c_w_id ∷ h_c_d_id ∷ h_c_id ∷ [])
              (h_w_id' ∷ h_d_id' ∷ h_date' ∷ h_c_w_id' ∷ h_c_d_id' ∷ h_c_id' ∷ []))
unfolding smaller keycmp h_less
h_key-order h_w_id h_d_id h_c_w_id h_c_d_id h_c_id h_date h_w_id' h_d_id' h_c_w_id' h_c_d_id'
      h_c_id' h_date' h0 h1 h2 h3 h4 h5 h6 h7 h8 h9 h10 h11 =
    (
      ground arith,
      ground (
        arith,
        memcmp-to_str_key (h_key h_w_id h_d_id h_c_w_id h_c_d_id h_c_id h_date)
            (h_key h_w_id' h_d_id' h_c_w_id' h_c_d_id' h_c_id' h_date') (omega arith) (omega arith)
            (omega arith),
      ),
    )
