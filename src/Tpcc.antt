-- ===== src/Tpcc.antt =====
-- benchmark/real_world/tpcc.cpp: the transactions.
pub mod Values
pub mod VarStr
pub mod Store
pub mod Places
pub mod NewOrderDraws
pub mod NewOrder
pub mod NewOrderInputs
pub mod Lines
pub mod NewOrderEffect
pub mod NewOrderOutcome
pub mod NewOrderKeeps
pub mod NewOrderTotal
pub mod PaymentDraws
pub mod Payment
pub mod PaymentEffect
pub mod Credits
pub mod PaymentKeeps
pub mod LineRows
pub mod LineScan
pub mod OrderStatus
pub mod OrderStatusLines
pub mod StockLevel
pub mod Delivery
pub mod DeliveryEffect
pub mod DeliveryDistrict
pub mod DeliveryLoop
pub mod Sound
pub mod HackInfo
pub mod SoundNewOrder
pub mod SoundDelivery
pub mod OrderLife
pub mod Mix
pub mod Warehouses
pub mod Worker
pub mod WorkerRuns
pub mod Loader
pub mod Loaded
pub mod LoadOrders
pub mod Emplace
pub mod OrdersFilled
pub mod OrdersLoaded
pub mod Prepare
