-- ===== src/Queue.antt =====
-- The scheduler, saffron/scheduler.py: from the specs on disk and the ledger's rows to the queue of
-- one night and its refusals.
pub mod Walk
pub mod Rows
pub mod Paths
pub mod Names
pub mod Pulls
pub mod Dependencies
pub mod Order
pub mod Base
pub mod Night
pub mod Build
