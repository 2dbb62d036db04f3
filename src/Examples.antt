-- ===== src/Examples.antt =====
-- Runs, and the theorems at concrete inputs.
mod BufferRuns
mod KeyRuns
mod RandomRuns
mod Trees
mod SortedTree
mod Libraries
mod WormholeRuns
mod IndexRuns
mod WorkloadRuns
mod HelperRuns
mod TpccRuns
mod PaymentRuns
mod DeliveryRuns
mod DriverRuns
mod LoaderRuns
