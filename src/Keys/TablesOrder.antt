-- ===== src/Keys/TablesOrder.antt =====
-- benchmark/real_world/tpcc.h: the order of the other key structs on a little-endian machine.
use sidle_baselines.Base.{ℕ, ◌^◌, ◌<◌, ◌≡◌, [], ◌∷◌, arith}
use sidle_baselines.Bytes.{little, memcmp}
use sidle_baselines.Keys.StrKey.{keycmp}
use sidle_baselines.Keys.Packed.{smaller, to_str_key, less}
use sidle_baselines.Keys.PackedOrder.{less-compare_fields, memcmp-to_str_key}
use sidle_baselines.Keys.Structs.{
  ol_struct, c_struct, o_struct, no_key, no_struct, d_key, d_struct, s_key, s_struct, s_data_key,
  s_data_struct, order_cid_index_key, order_cid_index_struct, w_key, w_struct, i_key, i_struct,
  h_struct,
}

-- New orders, by warehouse, district and number of the order: for ids that fit their fields, `operator<`
-- is the lexicographic order of the ids, and `memcmp` of the `to_str_key` forms has its sign.
pub no_key-order :
    (no_w_id no_d_id no_o_id no_w_id' no_d_id' no_o_id' : ℕ)
    → no_w_id < 2 ^ 16
    → no_d_id < 2 ^ 8
    → no_o_id < 2 ^ 32
    → no_w_id' < 2 ^ 16
    → no_d_id' < 2 ^ 8
    → no_o_id' < 2 ^ 32
    → (less little (no_key no_w_id no_d_id no_o_id) (no_key no_w_id' no_d_id' no_o_id')
        ≡ smaller (no_w_id ∷ no_d_id ∷ no_o_id ∷ []) (no_w_id' ∷ no_d_id' ∷ no_o_id' ∷ []))
      × (memcmp
            (to_str_key little (no_key no_w_id no_d_id no_o_id))
            (to_str_key little (no_key no_w_id' no_d_id' no_o_id'))
          ≡ keycmp (no_w_id ∷ no_d_id ∷ no_o_id ∷ []) (no_w_id' ∷ no_d_id' ∷ no_o_id' ∷ []))
unfolding smaller keycmp
no_key-order no_w_id no_d_id no_o_id no_w_id' no_d_id' no_o_id' h0 h1 h2 h3 h4 h5 = (
  ground (
    arith,
    less-compare_fields (no_key no_w_id no_d_id no_o_id) (no_key no_w_id' no_d_id' no_o_id')
        (omega arith) (omega arith) (omega arith),
  ),
  ground (
    arith,
    memcmp-to_str_key (no_key no_w_id no_d_id no_o_id) (no_key no_w_id' no_d_id' no_o_id')
        (omega arith) (omega arith) (omega arith),
  ),
)

-- Districts, by warehouse and number: for ids that fit their fields, `operator<` is the lexicographic
-- order of the ids, and `memcmp` of the `to_str_key` forms has its sign.
pub d_key-order :
    (d_w_id d_id d_w_id' d_id' : ℕ)
    → d_w_id < 2 ^ 16
    → d_id < 2 ^ 8
    → d_w_id' < 2 ^ 16
    → d_id' < 2 ^ 8
    → (less little (d_key d_w_id d_id) (d_key d_w_id' d_id')
        ≡ smaller (d_w_id ∷ d_id ∷ []) (d_w_id' ∷ d_id' ∷ []))
      × (memcmp (to_str_key little (d_key d_w_id d_id)) (to_str_key little (d_key d_w_id' d_id'))
          ≡ keycmp (d_w_id ∷ d_id ∷ []) (d_w_id' ∷ d_id' ∷ []))
unfolding smaller keycmp
d_key-order d_w_id d_id d_w_id' d_id' h0 h1 h2 h3 = (
  ground (
    arith,
    less-compare_fields (d_key d_w_id d_id) (d_key d_w_id' d_id') (omega arith) (omega arith)
        (omega arith),
  ),
  ground (
    arith,
    memcmp-to_str_key (d_key d_w_id d_id) (d_key d_w_id' d_id') (omega arith) (omega arith)
        (omega arith),
  ),
)

-- Stock, by warehouse and item: for ids that fit their fields, `operator<` is the lexicographic order
-- of the ids, and `memcmp` of the `to_str_key` forms has its sign.
pub s_key-order :
    (s_w_id s_i_id s_w_id' s_i_id' : ℕ)
    → s_w_id < 2 ^ 16
    → s_i_id < 2 ^ 32
    → s_w_id' < 2 ^ 16
    → s_i_id' < 2 ^ 32
    → (less little (s_key s_w_id s_i_id) (s_key s_w_id' s_i_id')
        ≡ smaller (s_w_id ∷ s_i_id ∷ []) (s_w_id' ∷ s_i_id' ∷ []))
      × (memcmp
            (to_str_key little (s_key s_w_id s_i_id))
            (to_str_key little (s_key s_w_id' s_i_id'))
          ≡ keycmp (s_w_id ∷ s_i_id ∷ []) (s_w_id' ∷ s_i_id' ∷ []))
unfolding smaller keycmp
s_key-order s_w_id s_i_id s_w_id' s_i_id' h0 h1 h2 h3 = (
  ground (
    arith,
    less-compare_fields (s_key s_w_id s_i_id) (s_key s_w_id' s_i_id') (omega arith) (omega arith)
        (omega arith),
  ),
  ground (
    arith,
    memcmp-to_str_key (s_key s_w_id s_i_id) (s_key s_w_id' s_i_id') (omega arith) (omega arith)
        (omega arith),
  ),
)

-- Stock data, as stock.
pub s_data_key-order :
    (s_w_id s_i_id s_w_id' s_i_id' : ℕ)
    → s_w_id < 2 ^ 16
    → s_i_id < 2 ^ 32
    → s_w_id' < 2 ^ 16
    → s_i_id' < 2 ^ 32
    → (less little (s_data_key s_w_id s_i_id) (s_data_key s_w_id' s_i_id')
        ≡ smaller (s_w_id ∷ s_i_id ∷ []) (s_w_id' ∷ s_i_id' ∷ []))
      × (memcmp
            (to_str_key little (s_data_key s_w_id s_i_id))
            (to_str_key little (s_data_key s_w_id' s_i_id'))
          ≡ keycmp (s_w_id ∷ s_i_id ∷ []) (s_w_id' ∷ s_i_id' ∷ []))
unfolding smaller keycmp
s_data_key-order s_w_id s_i_id s_w_id' s_i_id' h0 h1 h2 h3 = (
  ground (
    arith,
    less-compare_fields (s_data_key s_w_id s_i_id) (s_data_key s_w_id' s_i_id') (omega arith)
        (omega arith) (omega arith),
  ),
  ground (
    arith,
    memcmp-to_str_key (s_data_key s_w_id s_i_id) (s_data_key s_w_id' s_i_id') (omega arith)
        (omega arith) (omega arith),
  ),
)

-- The index of orders, by warehouse, district, customer and order.
pub order_cid_index_key-order :
    (oc_w_id oc_d_id oc_c_id oc_o_id oc_w_id' oc_d_id' oc_c_id' oc_o_id' : ℕ)
    → oc_w_id < 2 ^ 8
    → oc_d_id < 2 ^ 8
    → oc_c_id < 2 ^ 16
    → oc_o_id < 2 ^ 32
    → oc_w_id' < 2 ^ 8
    → oc_d_id' < 2 ^ 8
    → oc_c_id' < 2 ^ 16
    → oc_o_id' < 2 ^ 32
    → (less little
          (order_cid_index_key oc_w_id oc_d_id oc_c_id oc_o_id)
          (order_cid_index_key oc_w_id' oc_d_id' oc_c_id' oc_o_id')
        ≡ smaller
            (oc_w_id ∷ oc_d_id ∷ oc_c_id ∷ oc_o_id ∷ [])
            (oc_w_id' ∷ oc_d_id' ∷ oc_c_id' ∷ oc_o_id' ∷ []))
      × (memcmp
            (to_str_key little (order_cid_index_key oc_w_id oc_d_id oc_c_id oc_o_id))
            (to_str_key little (order_cid_index_key oc_w_id' oc_d_id' oc_c_id' oc_o_id'))
          ≡ keycmp
              (oc_w_id ∷ oc_d_id ∷ oc_c_id ∷ oc_o_id ∷ [])
              (oc_w_id' ∷ oc_d_id' ∷ oc_c_id' ∷ oc_o_id' ∷ []))
unfolding smaller keycmp
order_cid_index_key-order oc_w_id oc_d_id oc_c_id oc_o_id oc_w_id' oc_d_id' oc_c_id' oc_o_id' h0 h1
      h2 h3 h4 h5 h6 h7 =
    (
      ground (
        arith,
        less-compare_fields (order_cid_index_key oc_w_id oc_d_id oc_c_id oc_o_id)
            (order_cid_index_key oc_w_id' oc_d_id' oc_c_id' oc_o_id') (omega arith) (omega arith)
            (omega arith),
      ),
      ground (
        arith,
        memcmp-to_str_key (order_cid_index_key oc_w_id oc_d_id oc_c_id oc_o_id)
            (order_cid_index_key oc_w_id' oc_d_id' oc_c_id' oc_o_id') (omega arith) (omega arith)
            (omega arith),
      ),
    )

-- Warehouses, by number.
pub w_key-order :
    (w_id w_id' : ℕ)
    → w_id < 2 ^ 64
    → w_id' < 2 ^ 64
    → (less little (w_key w_id) (w_key w_id') ≡ smaller (w_id ∷ []) (w_id' ∷ []))
      × (memcmp (to_str_key little (w_key w_id)) (to_str_key little (w_key w_id'))
          ≡ keycmp (w_id ∷ []) (w_id' ∷ []))
unfolding smaller keycmp
w_key-order w_id w_id' h0 h1 = (
  ground (
    arith,
    less-compare_fields (w_key w_id) (w_key w_id') (omega arith) (omega arith) (omega arith),
  ),
  ground (
    arith,
    memcmp-to_str_key (w_key w_id) (w_key w_id') (omega arith) (omega arith) (omega arith),
  ),
)

-- Items, by number.
pub i_key-order :
    (i_id i_id' : ℕ)
    → i_id < 2 ^ 64
    → i_id' < 2 ^ 64
    → (less little (i_key i_id) (i_key i_id') ≡ smaller (i_id ∷ []) (i_id' ∷ []))
      × (memcmp (to_str_key little (i_key i_id)) (to_str_key little (i_key i_id'))
          ≡ keycmp (i_id ∷ []) (i_id' ∷ []))
unfolding smaller keycmp
i_key-order i_id i_id' h0 h1 = (
  ground (
    arith,
    less-compare_fields (i_key i_id) (i_key i_id') (omega arith) (omega arith) (omega arith),
  ),
  ground (
    arith,
    memcmp-to_str_key (i_key i_id) (i_key i_id') (omega arith) (omega arith) (omega arith),
  ),
)
