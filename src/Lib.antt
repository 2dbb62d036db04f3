-- ===== src/Lib.antt =====
-- sidle-baselines: the indexes, keys and workloads of the baselines that SIDLE is measured against.
--
-- The benchmarks run put, get, remove and scan workloads on an index through a wrapper. A key is
-- one of the types of benchmark/synthetic/micro_base.h or benchmark/real_world/tpcc.h; it is stored
-- in the form that `to_str_key` gives it, so that an index that compares bytes keeps the keys in
-- their order. What a worker does is drawn from a linear congruential generator. `BufferKV` is the
-- simplest index, a sorted array under a lock. The parts, and the files that model them:
--
--   Buffer, src/kv/buffer.h: `BufferKV` is the record of its fields (Buffer/Defs); each member
--     function is a function of the same name from the buffer to the buffer it leaves
--     (Buffer/Operations). `BS` is defined, so that the operations search by `binary_search`.
--     Buffer/Search is about the search, Buffer/Meaning gives a buffer its map from keys to
--     values, Buffer/Rows and Buffer/Dropped are about the moves of the cells, and
--     Buffer/Refinement, Buffer/Scans and Buffer/Failures hold the theorems on the operations. Keys
--     are numbers, under `<` and `==`; values are of any type. The memory that `new` gives, or does
--     not, and what a fresh cell holds is a parameter (`Heap`).
--   Keys, benchmark/synthetic/micro_base.h and benchmark/real_world/tpcc.h: Keys/IntKey is `Key`,
--     Keys/StrKey is `StrBagKey` and `StrKey`, Keys/Packed is what the key structs of TPC-C have in
--     common, and Keys/Structs is the structs, with their fields in memory order. The byte order of
--     the machine is an argument. Bytes holds words as bytes, and `memcmp`. The features of a model
--     key are doubles that hold integers, and are kept as these; what the cast makes of a word is an
--     argument where words may be too large for a double.
--   Random, benchmark/real_world/tpcc.h: Random/FastRandom is `fast_random`, Random/Draws the
--     draws.
--   Masstree, src/kv/masstree.h: `MasstreeKV` (Masstree/Wrapper) over the vendored tree, a
--     parameter (Masstree/Tree) of which it is relied on that it maps byte strings to values and, for
--     the scans, that it has its rows in order. Masstree/WrapperMap and Masstree/Scan hold the
--     theorems on the wrapper.
--   Wormhole, src/kv/wormhole.h: `WormholeKV` (Wormhole/Wrapper) over the vendored library, a
--     parameter (Wormhole/Library). The state has, besides the source's fields, a count of the
--     references, iterators and copies of rows that the library has out (`Held`), so that what is
--     not given back, or given back twice, can be told. Wormhole/Protocol has the calls of the
--     workers as steps between states, in any order, and what it means that the count is right;
--     Wormhole/Balance is about each call, Wormhole/Workers and Wormhole/Destroy about the states
--     that are reached. Wormhole/WrapperMap and Wormhole/Scan are about what a call returns. A
--     worker that holds no reference and calls the library all the same makes a call that is not defined.
--   Indexes, src/kv/art_wrapper.h, src/kv/pactree_wrapper.h and src/kv/smart.h: `ARTKV`,
--     `PACTreeKV` and `Smart`, each over its vendored library, a parameter. Keys/Stored is what a
--     key type gives such a wrapper, Keys/StoredRows the rows under the bytes of their keys.
--   Workload: the calls that the wrappers have in common as an interface (Workload/Index), with the
--     map that an index stands for and the law that it keeps, which Workload/MasstreeIndex and
--     Workload/WormholeIndex fill. Workload/Agreement runs both on the same calls.
--   Helper, src/helper.h and src/helper.cpp: `min_max`, `max`, `max_range` and `mean`
--     (Helper/Extremes, Helper/ExtremesLaws, Helper/Ranges), the cycle counters and `timeit`
--     (Helper/Clock), `bind_to_physical_cores` without BIND_NUMA1 (Helper/Cores), `print_matrix`
--     (Helper/Matrix), `RangeScanCallback` and the small classes (Helper/Callback,
--     Helper/CallbackRows). What the registers and the clock hold is a parameter, and so is the
--     arithmetic on doubles.
--   Tpcc, benchmark/real_world/tpcc.cpp: the five transactions, on a record of the tables and vectors
--     that they use (Tpcc/Store), each table a `MasstreeKV` on a little-endian machine.
--     Tpcc/NewOrderDraws is the part of `txn_new_order` that draws, Tpcc/NewOrder the part that reads
--     and writes; Tpcc/NewOrderInputs, Tpcc/Lines, Tpcc/NewOrderEffect, Tpcc/NewOrderOutcome,
--     Tpcc/NewOrderTotal and Tpcc/NewOrderKeeps hold the theorems. In the same way Tpcc/PaymentDraws,
--     Tpcc/Payment, Tpcc/PaymentEffect and Tpcc/PaymentKeeps for `txn_payment`,
--     with Tpcc/VarStr for the fixed-width texts and Tpcc/Credits about the customers' credit. Tpcc/LineScan is the
--     scan of order lines that the other three make, over the keys of Keys/OrderLine, and
--     Tpcc/LineRows is about lists of such lines. Tpcc/Delivery is `txn_delivery`:
--     Tpcc/DeliveryEffect is about one order, Tpcc/DeliveryDistrict about a district's turn,
--     Tpcc/DeliveryLoop about the whole, and Tpcc/OrderLife about a new order and its delivery.
--     Tpcc/OrderStatus and Tpcc/StockLevel are `txn_order_status` and `txn_stock_level`, and
--     Tpcc/OrderStatusLines is about the lines that the first reads. Float
--     arithmetic is a parameter, and so are the text that snprintf prints and what a row holds that
--     is read before it is assigned, after a `get` that missed.
--   The driver, of the same file: Tpcc/HackInfo creates the two vectors of vectors as `run_tpcc`
--     does, and Tpcc/Warehouses deals out the warehouses to the workers. Tpcc/Mix is the choice of a
--     transaction and Tpcc/Worker the loop of `run_worker`, which makes as many rounds as pass
--     before it is stopped. Tpcc/Sound is what the transactions keep of the vectors and the orders;
--     Tpcc/SoundNewOrder, Tpcc/SoundDelivery and Tpcc/WorkerRuns hold the theorems. A worker runs
--     alone: what other workers do to the tables between its calls is not modelled.
--   The loader, benchmark/real_world/tpcc_loader.h: Tpcc/Loader is `load_masstree_kv_data`, on a map that
--     is the sequence of its rows, and Tpcc/Loaded is about it. Tpcc/LoadOrders is `load_order`, with
--     `std::shuffle` a parameter that keeps the length of a vector; Tpcc/Emplace, Tpcc/OrdersFilled and
--     Tpcc/OrdersLoaded are about the map that it fills. Tpcc/Prepare is the load of the orders in
--     `prepare_kvs`, and what the workers start from.
--   Memory: arrays with bounds, size_t, and `Run`, what a call ends with. Base: names of the
--     library, tests, lists, and lemmas on them. Examples: runs, and the theorems at concrete
--     inputs.
--
-- An integer of the machine is a native number below the power of two of its width, with its
-- wrap-around written out; an `int` is its 32-bit pattern, or an integer where it may be
-- negative and nothing is computed from it. An `assert` is on, as in a build without
-- NDEBUG. The loop of `binary_search` has fuel, one round more than the buffer has records: each
-- round but the last cuts the range of rows that is left by at least one, so that this is enough.
-- The loop of the transactions that draws another warehouse until it differs has fuel too; with one
-- warehouse it is never entered. The loop of `max_range` has a round for each cell up to the end of
-- its array and one more: past the end a read fails. The other loops count down. A buffer and its lock are used by one
-- thread, which takes the lock only where it does not hold it: a call that would wait is a fault.
-- An exception, as of a `new` without memory, ends the run.
--
-- Not modelled: the string keys as the wrappers store them, with a field that is never set, the vendored
-- indexes under third_party, the branches of the transactions of TPC-C under
-- `if (false)` and what is under ORIGIN_TPCC, the loads of the tables other than that of the orders and
-- of tables that are no `MasstreeKV`, the threads, timing, statistics and output of
-- the drivers, the synthetic drivers and the generators of benchmark/synthetic/generator.h, and the
-- macros of src/helper.h for output.
pub mod Base
pub mod Memory
pub mod Buffer
pub mod Bytes
pub mod Keys
pub mod Random
pub mod Masstree
pub mod Wormhole
pub mod Indexes
pub mod Helper
pub mod Workload
pub mod Tpcc
pub mod Examples
