-- ===== src/Tests.antt =====
-- The theorems at concrete servers, over the platform `integers`.
mod Data
mod Banking
mod Replicas
mod Elections
mod Clients
mod Locks
mod Failovers
mod Sessions
mod Startups
mod Networks
mod Inits
mod Losses
mod Printers
