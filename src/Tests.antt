-- ===== src/Tests.antt =====
-- A concrete environment, and every theorem applied to a run of the program in it.
mod Codec
mod Sample
mod Accounts
mod Access
mod Cluster
mod Logins
mod Gateway
mod Settings
mod Server
mod Whole
