-- ===== src/Replication.antt =====
-- How a primary and its backups stay equal: what the primary sends (propagateTransaction,
-- propagateClientAddition, registerBackup in T1/server/Server.cpp) against what a backup does with
-- it (handleStateUpdate, handleClientUpdate, handleHistoryEntry).
pub mod Mirrors
pub mod Update
pub mod Transactions
pub mod Joins
pub mod Delivery
pub mod Run
pub mod Failover
pub mod Rejoin
pub mod Lost
pub mod Startup
pub mod Init
pub mod Sync
pub mod Fresh
pub mod Consistent
