-- ===== src/Keys/Structs.antt =====
-- benchmark/real_world/tpcc.h: the key structs of the tables, with their fields in memory order, their
-- constructors, which cut the arguments down to the fields, and their model keys. A row of `dummy` bytes
-- is one field, which the constructors set to 0.
use sidle_baselines.Base.{ℕ, ◌%◌, ◌^◌, ◌-◌, Bool, not, ◌&&◌, [], ◌∷◌}
use sidle_baselines.Keys.Packed.{KeyStruct, smaller}

pub record WKey : Type 0 where
  pub w_id : ℕ

abbrev pub w_key : ℕ → WKey
w_key w_id = record { w_id = w_id % 2 ^ 64 }

abbrev pub w_key_max : WKey
w_key_max = record { w_id = 2 ^ 64 - 1 }

abbrev pub w_key_min : WKey
w_key_min = record { w_id = 0 }

instance abbrev pub w_struct : KeyStruct WKey
w_struct = record { layout = λ k. (8, k.w_id) ∷ []; to_model_key = λ k. k.w_id ∷ [] }

pub record DKey : Type 0 where
  pub dummy : ℕ
  pub d_id : ℕ
  pub d_w_id : ℕ

abbrev pub d_key : ℕ → ℕ → DKey
d_key d_w_id d_id = record { dummy = 0; d_id = d_id % 2 ^ 8; d_w_id = d_w_id % 2 ^ 16 }

abbrev pub d_key_max : DKey
d_key_max = record { dummy = 2 ^ 40 - 1; d_id = 2 ^ 8 - 1; d_w_id = 2 ^ 16 - 1 }

abbrev pub d_key_min : DKey
d_key_min = record { dummy = 0; d_id = 0; d_w_id = 0 }

instance abbrev pub d_struct : KeyStruct DKey
d_struct = record {
  layout = λ k. (5, k.dummy) ∷ (1, k.d_id) ∷ (2, k.d_w_id) ∷ [];
  to_model_key = λ k. k.d_w_id ∷ k.d_id ∷ [];
}

pub record OrderCidIndexKey : Type 0 where
  pub oc_o_id : ℕ
  pub oc_c_id : ℕ
  pub oc_d_id : ℕ
  pub oc_w_id : ℕ

abbrev pub order_cid_index_key : ℕ → ℕ → ℕ → ℕ → OrderCidIndexKey
order_cid_index_key oc_w_id oc_d_id oc_c_id oc_o_id = record {
  oc_o_id = oc_o_id % 2 ^ 32;
  oc_c_id = oc_c_id % 2 ^ 16;
  oc_d_id = oc_d_id % 2 ^ 8;
  oc_w_id = oc_w_id % 2 ^ 8;
}

abbrev pub order_cid_index_key_max : OrderCidIndexKey
order_cid_index_key_max = record {
  oc_o_id = 2 ^ 32 - 1;
  oc_c_id = 2 ^ 16 - 1;
  oc_d_id = 2 ^ 8 - 1;
  oc_w_id = 2 ^ 8 - 1;
}

abbrev pub order_cid_index_key_min : OrderCidIndexKey
order_cid_index_key_min = record { oc_o_id = 0; oc_c_id = 0; oc_d_id = 0; oc_w_id = 0 }

instance abbrev pub order_cid_index_struct : KeyStruct OrderCidIndexKey
order_cid_index_struct = record {
  layout = λ k. (4, k.oc_o_id) ∷ (2, k.oc_c_id) ∷ (1, k.oc_d_id) ∷ (1, k.oc_w_id) ∷ [];
  to_model_key = λ k. k.oc_w_id ∷ k.oc_d_id ∷ k.oc_c_id ∷ k.oc_o_id ∷ [];
}

pub record CKey : Type 0 where
  pub dummy : ℕ
  pub c_id : ℕ
  pub c_d_id : ℕ
  pub c_w_id : ℕ

abbrev pub c_key : ℕ → ℕ → ℕ → CKey
c_key c_id c_d_id c_w_id = record {
  dummy = 0;
  c_id = c_id % 2 ^ 16;
  c_d_id = c_d_id % 2 ^ 8;
  c_w_id = c_w_id % 2 ^ 16;
}

abbrev pub c_key_max : CKey
c_key_max = record {
  dummy = 2 ^ 24 - 1;
  c_id = 2 ^ 16 - 1;
  c_d_id = 2 ^ 8 - 1;
  c_w_id = 2 ^ 16 - 1;
}

abbrev pub c_key_min : CKey
c_key_min = record { dummy = 0; c_id = 0; c_d_id = 0; c_w_id = 0 }

instance abbrev pub c_struct : KeyStruct CKey
c_struct = record {
  layout = λ k. (3, k.dummy) ∷ (2, k.c_id) ∷ (1, k.c_d_id) ∷ (2, k.c_w_id) ∷ [];
  to_model_key = λ k. k.c_w_id ∷ k.c_d_id ∷ k.c_id ∷ [];
}

pub record HKey : Type 0 where
  pub h_c_id : ℕ
  pub h_c_d_id : ℕ
  pub h_c_w_id : ℕ
  pub h_date : ℕ
  pub h_d_id : ℕ
  pub h_w_id : ℕ

abbrev pub h_key : ℕ → ℕ → ℕ → ℕ → ℕ → ℕ → HKey
h_key h_w_id h_d_id h_c_w_id h_c_d_id h_c_id h_date = record {
  h_c_id = h_c_id % 2 ^ 16;
  h_c_d_id = h_c_d_id % 2 ^ 8;
  h_c_w_id = h_c_w_id % 2 ^ 16;
  h_date = h_date % 2 ^ 32;
  h_d_id = h_d_id % 2 ^ 8;
  h_w_id = h_w_id % 2 ^ 16;
}

abbrev pub h_key_max : HKey
h_key_max = record {
  h_c_id = 2 ^ 16 - 1;
  h_c_d_id = 2 ^ 8 - 1;
  h_c_w_id = 2 ^ 16 - 1;
  h_date = 2 ^ 32 - 1;
  h_d_id = 2 ^ 8 - 1;
  h_w_id = 2 ^ 16 - 1;
}

abbrev pub h_key_min : HKey
h_key_min = record { h_c_id = 0; h_c_d_id = 0; h_c_w_id = 0; h_date = 0; h_d_id = 0; h_w_id = 0 }

instance abbrev pub h_struct : KeyStruct HKey
h_struct = record {
  layout = λ k.
      (2, k.h_c_id)
      ∷ (1, k.h_c_d_id)
      ∷ (2, k.h_c_w_id)
      ∷ (4, k.h_date)
      ∷ (1, k.h_d_id)
      ∷ (2, k.h_w_id)
      ∷ [];
  to_model_key = λ k. k.h_w_id ∷ k.h_d_id ∷ k.h_date ∷ k.h_c_w_id ∷ k.h_c_d_id ∷ k.h_c_id ∷ [];
}

pub record NoKey : Type 0 where
  pub dummy : ℕ
  pub no_o_id : ℕ
  pub no_d_id : ℕ
  pub no_w_id : ℕ

abbrev pub no_key : ℕ → ℕ → ℕ → NoKey
no_key no_w_id no_d_id no_o_id = record {
  dummy = 0;
  no_o_id = no_o_id % 2 ^ 32;
  no_d_id = no_d_id % 2 ^ 8;
  no_w_id = no_w_id % 2 ^ 16;
}

abbrev pub no_key_max : NoKey
no_key_max = record {
  dummy = 2 ^ 8 - 1;
  no_o_id = 2 ^ 32 - 1;
  no_d_id = 2 ^ 8 - 1;
  no_w_id = 2 ^ 16 - 1;
}

abbrev pub no_key_min : NoKey
no_key_min = record { dummy = 0; no_o_id = 0; no_d_id = 0; no_w_id = 0 }

instance abbrev pub no_struct : KeyStruct NoKey
no_struct = record {
  layout = λ k. (1, k.dummy) ∷ (4, k.no_o_id) ∷ (1, k.no_d_id) ∷ (2, k.no_w_id) ∷ [];
  to_model_key = λ k. k.no_w_id ∷ k.no_d_id ∷ k.no_o_id ∷ [];
}

pub record OKey : Type 0 where
  pub dummy : ℕ
  pub o_id : ℕ
  pub o_d_id : ℕ
  pub o_w_id : ℕ

abbrev pub o_key : ℕ → ℕ → ℕ → OKey
o_key o_w_id o_d_id o_id = record {
  dummy = 0;
  o_id = o_id % 2 ^ 32;
  o_d_id = o_d_id % 2 ^ 8;
  o_w_id = o_w_id % 2 ^ 16;
}

abbrev pub o_key_max : OKey
o_key_max = record { dummy = 2 ^ 8 - 1; o_id = 2 ^ 32 - 1; o_d_id = 2 ^ 8 - 1; o_w_id = 2 ^ 16 - 1 }

abbrev pub o_key_min : OKey
o_key_min = record { dummy = 0; o_id = 0; o_d_id = 0; o_w_id = 0 }

instance abbrev pub o_struct : KeyStruct OKey
o_struct = record {
  layout = λ k. (1, k.dummy) ∷ (4, k.o_id) ∷ (1, k.o_d_id) ∷ (2, k.o_w_id) ∷ [];
  to_model_key = λ k. k.o_w_id ∷ k.o_d_id ∷ k.o_id ∷ [];
}

pub record OlKey : Type 0 where
  pub ol_number : ℕ
  pub ol_o_id : ℕ
  pub ol_d_id : ℕ
  pub ol_w_id : ℕ

abbrev pub ol_key : ℕ → ℕ → ℕ → ℕ → OlKey
ol_key ol_w_id ol_d_id ol_o_id ol_number = record {
  ol_number = ol_number % 2 ^ 8;
  ol_o_id = ol_o_id % 2 ^ 32;
  ol_d_id = ol_d_id % 2 ^ 8;
  ol_w_id = ol_w_id % 2 ^ 16;
}

abbrev pub ol_key_max : OlKey
ol_key_max = record {
  ol_number = 2 ^ 8 - 1;
  ol_o_id = 2 ^ 32 - 1;
  ol_d_id = 2 ^ 8 - 1;
  ol_w_id = 2 ^ 16 - 1;
}

abbrev pub ol_key_min : OlKey
ol_key_min = record { ol_number = 0; ol_o_id = 0; ol_d_id = 0; ol_w_id = 0 }

instance abbrev pub ol_struct : KeyStruct OlKey
ol_struct = record {
  layout = λ k. (1, k.ol_number) ∷ (4, k.ol_o_id) ∷ (1, k.ol_d_id) ∷ (2, k.ol_w_id) ∷ [];
  to_model_key = λ k. k.ol_w_id ∷ k.ol_d_id ∷ k.ol_o_id ∷ k.ol_number ∷ [];
}

pub record IKey : Type 0 where
  pub i_id : ℕ

abbrev pub i_key : ℕ → IKey
i_key i_id = record { i_id = i_id % 2 ^ 64 }

abbrev pub i_key_max : IKey
i_key_max = record { i_id = 2 ^ 64 - 1 }

abbrev pub i_key_min : IKey
i_key_min = record { i_id = 0 }

instance abbrev pub i_struct : KeyStruct IKey
i_struct = record { layout = λ k. (8, k.i_id) ∷ []; to_model_key = λ k. k.i_id ∷ [] }

pub record SKey : Type 0 where
  pub dummy : ℕ
  pub s_i_id : ℕ
  pub s_w_id : ℕ

abbrev pub s_key : ℕ → ℕ → SKey
s_key s_w_id s_i_id = record { dummy = 0; s_i_id = s_i_id % 2 ^ 32; s_w_id = s_w_id % 2 ^ 16 }

abbrev pub s_key_max : SKey
s_key_max = record { dummy = 2 ^ 16 - 1; s_i_id = 2 ^ 32 - 1; s_w_id = 2 ^ 16 - 1 }

abbrev pub s_key_min : SKey
s_key_min = record { dummy = 0; s_i_id = 0; s_w_id = 0 }

instance abbrev pub s_struct : KeyStruct SKey
s_struct = record {
  layout = λ k. (2, k.dummy) ∷ (4, k.s_i_id) ∷ (2, k.s_w_id) ∷ [];
  to_model_key = λ k. k.s_w_id ∷ k.s_i_id ∷ [];
}

pub record SDataKey : Type 0 where
  pub dummy : ℕ
  pub s_i_id : ℕ
  pub s_w_id : ℕ

abbrev pub s_data_key : ℕ → ℕ → SDataKey
s_data_key s_w_id s_i_id = record { dummy = 0; s_i_id = s_i_id % 2 ^ 32; s_w_id = s_w_id % 2 ^ 16 }

abbrev pub s_data_key_max : SDataKey
s_data_key_max = record { dummy = 2 ^ 16 - 1; s_i_id = 2 ^ 32 - 1; s_w_id = 2 ^ 16 - 1 }

abbrev pub s_data_key_min : SDataKey
s_data_key_min = record { dummy = 0; s_i_id = 0; s_w_id = 0 }

instance abbrev pub s_data_struct : KeyStruct SDataKey
s_data_struct = record {
  layout = λ k. (2, k.dummy) ∷ (4, k.s_i_id) ∷ (2, k.s_w_id) ∷ [];
  to_model_key = λ k. k.s_w_id ∷ k.s_i_id ∷ [];
}

-- the friend operators of `H_key`: < > == != >= <=
unfoldable pub h_less : HKey → HKey → Bool
h_less l r = smaller (h_struct.to_model_key l) (h_struct.to_model_key r)

unfoldable pub h_greater : HKey → HKey → Bool
h_greater l r = h_less r l

unfoldable pub h_equal : HKey → HKey → Bool
h_equal l r = not (h_less l r) && not (h_less r l)

unfoldable pub h_unequal : HKey → HKey → Bool
h_unequal l r = not (h_equal l r)

unfoldable pub h_greater_equal : HKey → HKey → Bool
h_greater_equal l r = not (h_less l r)

unfoldable pub h_less_equal : HKey → HKey → Bool
h_less_equal l r = not (h_less r l)
