-- ===== src/Tests.antt =====
-- Concrete runs of the program, and each theorem at a concrete input.
pub mod Memory
pub mod Samples
mod OfWords
mod OfHeed
pub mod OfRocksdb
mod OfSqlite
mod OfInterleaving
mod OfMain
mod OfAccess
pub mod Tables
mod OfDynamodb
mod OfDebugLogs
mod OfExport
mod OfJobs
mod OfSessions
mod OfStartup
mod OfLocks
