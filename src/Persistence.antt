-- ===== src/Persistence.antt =====
-- hdv-foundation/persistence: the record shapes and the in-memory repositories, a module for each.
pub mod Records
pub mod RequestLog
pub mod SecurityAudit
pub mod LikenessUsage
pub mod NodeIdentity
pub mod IntentArchive
pub mod Users
pub mod Sessions
pub mod CompanionMemory
pub mod CreatorProfiles
pub mod CreatorPersonas
