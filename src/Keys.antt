-- ===== src/Keys.antt =====
-- The keys of the indexes: integers and byte strings of benchmark/synthetic/micro_base.h, and the
-- packed structs of benchmark/real_world/tpcc.h.
pub mod IntKey
pub mod StrKey
pub mod StrKeyOrder
pub mod Packed
pub mod PackedOrder
pub mod Structs
pub mod StructsOrder
pub mod TablesOrder
pub mod Stored
pub mod StoredRows
pub mod OrderLine
pub mod Apart
