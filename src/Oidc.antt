-- ===== src/Oidc.antt =====
-- internal/oidc/oidc.go: logins through an OpenID Connect provider.
pub mod Names
pub mod Flows
pub mod Settings
pub mod Login
pub mod Preserved
pub mod Admission
