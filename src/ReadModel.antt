-- ===== src/ReadModel.antt =====
-- The read model of validated runs: ts/packages/read-model/src.
pub mod Model
pub mod Compare
pub mod Project
pub mod Executions
pub mod Run
pub mod Instant
pub mod History
pub mod Assemble
pub mod ProjectId
pub mod Views
pub mod Ingest
pub mod Orders
pub mod Independent
pub mod Attempts
pub mod Settled
pub mod Groups
pub mod Partition
pub mod Build
pub mod Handled
pub mod Lookups
pub mod Accounted
pub mod Sorted
pub mod Standings
pub mod Singles
pub mod AnyOrder
pub mod HistoryOrder
pub mod Histories
pub mod Chronology
mod Tests
mod HistoryTests
