-- ===== src/Database.antt =====
-- internal/database/database.go: `Store`, one child for each group of its methods and of proofs.
pub mod Spared
pub mod Sql
pub mod Users
pub mod Sessions
pub mod Workspaces
pub mod Vault
pub mod Migrate
pub mod Settings
pub mod Identities
pub mod Calls
pub mod Preserved
pub mod Sound
pub mod Grows
pub mod Atomic
pub mod SignIn
pub mod Desired
