-- ===== src/Repository.antt =====
-- internal/repository: the store's operations, each over the tables.
pub mod Lookup
pub mod Inventory
pub mod Servers
pub mod Groups
pub mod Targets
pub mod Versions
pub mod Users
pub mod Keys
pub mod Release
pub mod Confirm
pub mod Claim
pub mod Finish
pub mod Recover
pub mod Reads
pub mod Coupling
pub mod Exclusion
pub mod Events
pub mod Leases
pub mod Queue
pub mod Outcome
