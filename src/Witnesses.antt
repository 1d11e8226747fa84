-- ===== src/Witnesses.antt =====
-- Concrete runs of the theorems: two Runner instances, one job, one cursor.
pub mod Data
pub mod StoreRuns
pub mod LedgerRuns
pub mod PassRun
pub mod CancelRun
pub mod KeeperRun
pub mod OwnershipRun
pub mod Decisions
pub mod DriveRun
pub mod TickRun
pub mod DrainRun
pub mod IntentRun
pub mod IntentStoreRun
pub mod QuoteStreamRun
